-- ===== src/Virtio/Events/Served.antt =====
-- Which queues the thread of the ioeventfds serves.
use mvvmm.Base.{
  ℕ, ◌≡◌, ◌≢◌, refl, ap, ap₂, sym, ◌∙◌, Bool, true, false, not, ◌&&◌, ◌||◌, none, some, List, [],
  ◌∷◌, ◌++◌, append_assoc, ltb, ◌==◌, eq→==, ne→==, if◌then◌else◌, Outcome, done, crash, aborted,
  out_of_fuel, ◌>>=◌,
}
use mvvmm.Virtio.Device.{Machine}
use mvvmm.Virtio.Queue.{Recv}
use mvvmm.Virtio.Events.{Fds}
use mvvmm.Virtio.Events.Owed.{
  readable, kicked, queue_if, owed, kick_all-ltb, cleared, cleared-first, cleared-second,
}
use mvvmm.Virtio.Events.Poll.{
  Counters, kick_all, read_counter, Polled, interrupted, poll_error, answered, PollRound, fd_list,
  pfds, is_fd, queue_of, any_set, notify, serve_queue, serve_fd, serve_fds, poll_loop,
  virtio_ioeventfd_poll_thread,
}

bind_assoc :
    {A B C : Type 0} (o : Outcome A) (f : A → Outcome B) (g : B → Outcome C)
    → ((o >>= f) >>= g) ≡ (o >>= λ m. f m >>= g)
bind_assoc (done m) f g = refl
bind_assoc crash f g = refl
bind_assoc aborted f g = refl
bind_assoc out_of_fuel f g = refl

bind_ext :
    {A B : Type 0} (o : Outcome A) (f g : A → Outcome B)
    → ((m : A) → f m ≡ g m)
    → (o >>= f) ≡ (o >>= g)
bind_ext (done m) f g h = h m
bind_ext crash f g h = refl
bind_ext aborted f g h = refl
bind_ext out_of_fuel f g h = refl

module _ {B : Type 0} (poll : Counters → List ℕ → List Bool) (fuel chain_fuel : ℕ)
    (recv : Recv B) where
  -- `queue_notify` for each of the queues, in order.
  unfoldable pub notify_all : List ℕ → Machine B → Outcome (Machine B)
  notify_all [] m = done m
  notify_all (q ∷ qs) m = notify poll fuel chain_fuel recv q m >>= λ m'. notify_all qs m'

  -- The machine, without the counters.
  abbrev pub machine_of : Outcome (Counters × Machine B) → Outcome (Machine B)
  machine_of o = o >>= λ p. done p.1

  notify_all-append :
      (xs ys : List ℕ) (m : Machine B)
      → notify_all (xs ++ ys) m ≡ (notify_all xs m >>= λ m'. notify_all ys m')
  unfolding notify_all
  notify_all-append [] ys m = refl
  notify_all-append (x ∷ xs) ys m =
      bind_ext (notify poll fuel chain_fuel recv x m) _ _ (λ m'. notify_all-append xs ys m')
      ∙ sym (bind_assoc (notify poll fuel chain_fuel recv x m) (notify_all xs) (notify_all ys))

  module _ (s : Fds) (a b : ℕ) (at0 : s.ioeventfd0 ≡ some a) (at1 : s.ioeventfd1 ≡ some b)
      (differ : a ≢ b) where
    queue_of-first : queue_of s a ≡ some 0
    unfolding queue_of is_fd
    queue_of-first =
        let same : (a == a) ≡ true = eq→== refl in
        ap (λ o. if is_fd o a then some 0 else if is_fd s.ioeventfd1 a then some 1 else none) at0
        ∙ rw same refl

    queue_of-second : queue_of s b ≡ some 1
    unfolding queue_of is_fd
    queue_of-second =
        let same : (b == b) ≡ true = eq→== refl in
        ap (λ o. if is_fd o b then some 0 else if is_fd s.ioeventfd1 b then some 1 else none) at0
        ∙ ap (λ o. if a == b then some 0 else if is_fd o b then some 1 else none) at1
        ∙ rw (ne→== differ, same) refl

    abbrev serve : ℕ → Counters → Machine B → Outcome (Counters × Machine B)
    serve fd c m = serve_fd poll fuel chain_fuel recv s fd c m

    serve_notify :
        (fd q : ℕ) (c : Counters) (m : Machine B)
        → queue_of s fd ≡ some q
        → serve fd c m
          ≡ (notify poll fuel chain_fuel recv q m >>= λ m'. done (read_counter fd c, m'))
    unfolding serve_fd serve_queue
    serve_notify fd q c m e =
        ap (λ o. serve_queue poll fuel chain_fuel recv o m >>= λ m'. done (read_counter fd c, m')) e

    -- The reads and the requests of a round.
    serve_fds-notify :
        (x y : Bool) (c : Counters) (m : Machine B)
        → serve_fds poll fuel chain_fuel recv s (a ∷ b ∷ []) (x ∷ y ∷ []) c m
          ≡ (notify_all (queue_if x 0 ++ queue_if y 1) m >>= λ m'. done (cleared a b x y c, m'))
    unfolding serve_fds notify_all queue_if
    serve_fds-notify true true c m =
        ap (λ o. o >>= λ p. serve b p.0 p.1 >>= λ p'. done p') (serve_notify a 0 c m queue_of-first)
        ∙ bind_assoc (notify poll fuel chain_fuel recv 0 m) _ _
        ∙ bind_ext (notify poll fuel chain_fuel recv 0 m) _ _ (λ m'.
          ap (λ o. o >>= λ p'. done p') (serve_notify b 1 (read_counter a c) m' queue_of-second)
          ∙ bind_assoc (notify poll fuel chain_fuel recv 1 m') _ _
          ∙ sym (bind_assoc (notify poll fuel chain_fuel recv 1 m') _ _))
        ∙ sym (bind_assoc (notify poll fuel chain_fuel recv 0 m) _ _)
    serve_fds-notify true false c m =
        ap (λ o. o >>= λ p. done p) (serve_notify a 0 c m queue_of-first)
        ∙ bind_assoc (notify poll fuel chain_fuel recv 0 m) _ _
        ∙ sym (bind_assoc (notify poll fuel chain_fuel recv 0 m) _ _)
    serve_fds-notify false true c m =
        ap (λ o. o >>= λ p. done p) (serve_notify b 1 c m queue_of-second)
        ∙ bind_assoc (notify poll fuel chain_fuel recv 1 m) _ _
        ∙ sym (bind_assoc (notify poll fuel chain_fuel recv 1 m) _ _)
    serve_fds-notify false false c m = refl

    module _ (honest : (c : Counters) (fds : List ℕ) → poll c fds ≡ readable c fds) where
      abbrev loop : List PollRound → Counters → Machine B → Outcome (Counters × Machine B)
      loop rounds c m = poll_loop poll fuel chain_fuel recv s (a ∷ b ∷ []) rounds c m

      -- That the rest of the rounds serves what it owes.
      abbrev Serves : List PollRound → Type 0
      Serves rounds =
          (c : Counters) (m : Machine B)
          → machine_of (loop rounds c m)
            ≡ notify_all (owed a b rounds (ltb 0 (c a)) (ltb 0 (c b))) m

      module _ (rounds : List PollRound) (serves : Serves rounds) (kicks late : List ℕ)
          (c : Counters) (m : Machine B) where
        abbrev polled : Counters
        polled = kick_all kicks c

        abbrev then_late : Counters
        then_late = kick_all late polled

        abbrev q0 : Bool
        q0 = ltb 0 (c a) || kicked a kicks

        abbrev q1 : Bool
        q1 = ltb 0 (c b) || kicked b kicks

        late-first : ltb 0 (then_late a) ≡ q0 || kicked a late
        late-first =
            kick_all-ltb a late polled ∙ ap (λ x. x || kicked a late) (kick_all-ltb a kicks c)

        late-second : ltb 0 (then_late b) ≡ q1 || kicked b late
        late-second =
            kick_all-ltb b late polled ∙ ap (λ x. x || kicked b late) (kick_all-ltb b kicks c)

        skips :
            machine_of (loop rounds then_late m)
            ≡ notify_all (owed a b rounds (q0 || kicked a late) (q1 || kicked b late)) m
        skips =
            serves then_late m
            ∙ ap₂ (λ x y. notify_all (owed a b rounds x y) m) late-first late-second

        -- The round with the flags `x` and `y`.
        abbrev answers : List Bool → Outcome (Counters × Machine B)
        answers revents =
            if any_set revents
            then (serve_fds poll fuel chain_fuel recv s (a ∷ b ∷ []) revents then_late m >>= λ p.
                loop rounds p.0 p.1)
            else loop rounds then_late m

        abbrev after : Bool → Bool → List ℕ
        after x y = owed a b rounds (not x && kicked a late) (not y && kicked b late)

        goes_on :
            (x y : Bool)
            → ltb 0 (then_late a) ≡ x || kicked a late
            → ltb 0 (then_late b) ≡ y || kicked b late
            → (m' : Machine B)
            → machine_of (loop rounds (cleared a b x y then_late) m') ≡ notify_all (after x y) m'
        goes_on x y e0 e1 m' =
            serves (cleared a b x y then_late) m'
            ∙ ap₂ (λ p q. notify_all (owed a b rounds p q) m')
                (cleared-first a b differ x y (kicked a late) then_late e0)
                (cleared-second a b differ x y (kicked b late) then_late e1)

        served :
            (x y : Bool)
            → ltb 0 (then_late a) ≡ x || kicked a late
            → ltb 0 (then_late b) ≡ y || kicked b late
            → machine_of (
                serve_fds poll fuel chain_fuel recv s (a ∷ b ∷ []) (x ∷ y ∷ []) then_late m >>= λ p.
                loop rounds p.0 p.1)
              ≡ notify_all (queue_if x 0 ++ (queue_if y 1 ++ after x y)) m
        served x y e0 e1 =
            ap (λ o. machine_of (o >>= λ p. loop rounds p.0 p.1)) (serve_fds-notify x y then_late m)
            ∙ ap machine_of (bind_assoc (notify_all (queue_if x 0 ++ queue_if y 1) m) _ _)
            ∙ bind_assoc (notify_all (queue_if x 0 ++ queue_if y 1) m) _ _
            ∙ bind_ext (notify_all (queue_if x 0 ++ queue_if y 1) m) _ _ (goes_on x y e0 e1)
            ∙ sym (notify_all-append (queue_if x 0 ++ queue_if y 1) (after x y) m)
            ∙ ap (λ qs. notify_all qs m) (append_assoc (queue_if x 0) (queue_if y 1) (after x y))

        answers-served :
            (x y : Bool)
            → ltb 0 (then_late a) ≡ x || kicked a late
            → ltb 0 (then_late b) ≡ y || kicked b late
            → machine_of (answers (x ∷ y ∷ []))
              ≡ notify_all (queue_if x 0 ++ (queue_if y 1 ++ after x y)) m
        unfolding any_set serve_fds
        answers-served true y e0 e1 = served true y e0 e1
        answers-served false true e0 e1 = served false true e0 e1
        answers-served false false e0 e1 = served false false e0 e1

        ends : done m ≡ notify_all [] m
        unfolding notify_all
        ends = refl

        one_round :
            (enabled : Bool) (how : Polled)
            → machine_of (
                loop
                  (record { enabled = enabled; kicks = kicks; polled = how; late = late } ∷ rounds)
                  c
                  m)
              ≡ notify_all
                  (owed a b
                    (record { enabled = enabled; kicks = kicks; polled = how; late = late }
                      ∷ rounds)
                    (ltb 0 (c a))
                    (ltb 0 (c b)))
                  m
        unfolding poll_loop owed
        one_round false how = ends
        one_round true interrupted = skips
        one_round true poll_error = ends
        one_round true answered =
            ap (λ revents. machine_of (answers revents))
              (honest polled (a ∷ b ∷ [])
                ∙ ap₂ (λ x y. x ∷ y ∷ []) (kick_all-ltb a kicks c) (kick_all-ltb b kicks c))
            ∙ answers-served q0 q1 late-first late-second

      loop-serves : (rounds : List PollRound) → Serves rounds
      unfolding poll_loop owed notify_all
      loop-serves [] c m = refl
      loop-serves (r ∷ rounds) c m =
          one_round rounds (loop-serves rounds) r.kicks r.late c m r.enabled r.polled

      -- The thread of a device that has its two ioeventfds, `a` and `b`, which differ, where `poll` says of
      -- each of them whether its counter is not 0: whatever the guest notifies in which round, before or
      -- behind the answer of `poll`, and with the errors and interruptions of `poll`, the thread serves, each
      -- time as `queue_notify` does, exactly the queues of which a notification is open when `poll`
      -- answers, queue 0 first, and each of them once for all its notifications up to the read of its
      -- counter (`owed`). What is open at the start is what the counters say.
      pub virtio_ioeventfd_poll_thread-serves :
          (rounds : List PollRound) (c : Counters) (m : Machine B)
          → machine_of (virtio_ioeventfd_poll_thread poll fuel chain_fuel recv s rounds c m)
            ≡ notify_all (owed a b rounds (ltb 0 (c a)) (ltb 0 (c b))) m
      unfolding virtio_ioeventfd_poll_thread pfds fd_list
      virtio_ioeventfd_poll_thread-serves rounds c m =
          ap
            (λ o. machine_of (
              poll_loop poll fuel chain_fuel recv s (fd_list o (fd_list s.ioeventfd1 [])) rounds c
                m))
            at0
          ∙ ap
              (λ o.
                machine_of (poll_loop poll fuel chain_fuel recv s (a ∷ fd_list o []) rounds c m))
              at1
          ∙ loop-serves rounds c m
