-- ===== src/Virtio/Events/Owed.antt =====
-- What the thread of the ioeventfds owes the guest, by the guest's notifications.
use mvvmm.Base.{
  ℕ, ◌≡◌, ◌≢◌, refl, ap, sym, ◌∙◌, Bool, true, false, not, ◌&&◌, ◌||◌, List, [], ◌∷◌, ◌++◌, ltb,
  ◌==◌, eq→==, ne→==, if◌then◌else◌, Bool-cases, inl, inr, arith,
}
use mvvmm.Virtio.Events.Poll.{
  Counters, kick, kick_all, read_counter, interrupted, poll_error, answered, PollRound,
}

-- `poll` on eventfds: POLLIN is set for those whose counter is not 0.
abbrev pub readable : Counters → List ℕ → List Bool
readable c [] = []
readable c (fd ∷ fds) = ltb 0 (c fd) ∷ readable c fds

-- Whether `fd` is among the descriptors that the guest notifies.
unfoldable pub kicked : ℕ → List ℕ → Bool
kicked fd [] = false
kicked fd (other ∷ kicks) = (fd == other) || kicked fd kicks

unfoldable pub queue_if : Bool → ℕ → List ℕ
queue_if b q = if b then q ∷ [] else []

-- What the thread owes the guest: the queues to serve, in order, where `p0` and `p1` say whether a
-- notification of queue 0, by `a`, and of queue 1, by `b`, has not been answered yet. A queue of which one is
-- open when `poll` answers is served once, for all its notifications up to the read.
unfoldable pub owed : ℕ → ℕ → List PollRound → Bool → Bool → List ℕ
unfolding kicked queue_if
owed a b [] p0 p1 = []
owed a b (r ∷ rounds) p0 p1 =
    let q0 = p0 || kicked a r.kicks in
    let q1 = p1 || kicked b r.kicks in
    let skipped = owed a b rounds (q0 || kicked a r.late) (q1 || kicked b r.late) in
    let served = owed a b rounds (not q0 && kicked a r.late) (not q1 && kicked b r.late) in
    if r.enabled
    then elim r.polled [
      | interrupted ↦ skipped
      | poll_error ↦ []
      | answered ↦ queue_if q0 0 ++ (queue_if q1 1 ++ served)
    ]
    else []

kick-ltb : (a fd : ℕ) (c : Counters) → ltb 0 (kick fd c a) ≡ ltb 0 (c a) || (a == fd)
unfolding kick
kick-ltb a fd c = elim (Bool-cases (a == fd)) [
  | inl e ↦ rw e (ground arith)
  | inr e ↦ rw e (ground arith)
]

or_assoc : (x y z : Bool) → ((x || y) || z) ≡ (x || (y || z))
or_assoc true y z = refl
or_assoc false y z = refl

pub kick_all-ltb :
    (a : ℕ) (kicks : List ℕ) (c : Counters)
    → ltb 0 (kick_all kicks c a) ≡ ltb 0 (c a) || kicked a kicks
unfolding kick_all kicked
kick_all-ltb a [] c = ground arith
kick_all-ltb a (fd ∷ kicks) c =
    kick_all-ltb a kicks (kick fd c)
    ∙ ap (λ x. x || kicked a kicks) (kick-ltb a fd c)
    ∙ or_assoc (ltb 0 (c a)) (a == fd) (kicked a kicks)

-- The counters behind the reads of the round, where `x` and `y` say which of the two there are.
abbrev pub cleared : ℕ → ℕ → Bool → Bool → Counters → Counters
cleared a b true true c = read_counter b (read_counter a c)
cleared a b true false c = read_counter a c
cleared a b false true c = read_counter b c
cleared a b false false c = c

module _ (a b : ℕ) (differ : a ≢ b) where
  read_self : (c : Counters) (fd : ℕ) → read_counter fd c fd ≡ 0
  unfolding read_counter
  read_self c fd = let same : (fd == fd) ≡ true = eq→== refl in rw same refl

  read_other : (c : Counters) (fd other : ℕ) → other ≢ fd → read_counter fd c other ≡ c other
  unfolding read_counter
  read_other c fd other ne = rw (ne→== ne) refl

  -- A counter behind the reads is what has come late, if it was read, and else as before.
  pub cleared-first :
      (x y k : Bool) (c : Counters)
      → ltb 0 (c a) ≡ x || k
      → ltb 0 (cleared a b x y c a) ≡ not x && k
  cleared-first true true k c e =
      ap (ltb 0) (read_other (read_counter a c) b a differ ∙ read_self c a)
  cleared-first true false k c e = ap (ltb 0) (read_self c a)
  cleared-first false true k c e = ap (ltb 0) (read_other c b a differ) ∙ e
  cleared-first false false k c e = e

  pub cleared-second :
      (x y k : Bool) (c : Counters)
      → ltb 0 (c b) ≡ y || k
      → ltb 0 (cleared a b x y c b) ≡ not y && k
  cleared-second true true k c e = ap (ltb 0) (read_self (read_counter a c) b)
  cleared-second true false k c e = ap (ltb 0) (read_other c a b (λ same. differ (sym same))) ∙ e
  cleared-second false true k c e = ap (ltb 0) (read_self c b)
  cleared-second false false k c e = e
