-- ===== src/ThreadPool/Turn.antt =====
-- What one step does to one worker.
use mvvmm.Base.{
  HoldsOf, ℕ, suc, ◌+◌, ◌≡◌, ◌⊎◌, inl, inr, refl, ap, subst, Bool, true, false, Option, none, some,
  List, [], ◌∷◌, ◌++◌, length, length-append, get_elem?, set, if◌then◌else◌, arith,
}
use mvvmm.ThreadPool.{
  Phase, starting, testing, waiting, running, releasing, exited, Worker, lock_free, claim,
  hand_over, worker_step,
}

unfoldable pub bit : Bool → ℕ
bit true = 1
bit false = 0

module _ {T : Type 0} where
  -- The thread runs a task that there is, and keeps none behind it.
  unfoldable pub is_settled : Phase → Option T → Bool
  is_settled running none = false
  is_settled releasing (some t) = false
  is_settled exited (some t) = false
  is_settled _ _ = true

  -- The worker is taken by a task, from the call that stores it on.
  unfoldable pub held : Phase → Option T → ℕ
  held p (some t) = 1
  held releasing none = 1
  held _ none = 0

  abbrev pub IsSettled : Worker T → Type 0
  IsSettled w = is_settled w.phase w.task ≡ true

  -- `is_working` stands for one call that has chosen the worker, or for one task in it.
  abbrev pub IsCounted : Worker T → Type 0
  IsCounted w = length w.callers + held w.phase w.task ≡ bit w.is_working

  -- What a step of the thread does with the task.
  abbrev pub Runs : Worker T → Worker T × Option T → Type 0
  Runs w (w', ran) =
      ((ran ≡ none) × (w'.task ≡ w.task))
      ⊎ ((t : T) × (w.task ≡ some t) × (w'.task ≡ none) × (ran ≡ some t))

  abbrev pub StepsTo : Worker T → Worker T × Option T → Type 0
  StepsTo w p = IsSettled p.0 × (IsCounted w → IsCounted p.0) × Runs w p

  worker : Bool → Option T → Phase → List T → Worker T
  worker b o p cs = record { is_working = b; task = o; phase = p; callers = cs }

  steps :
      (quit b : Bool) (o : Option T) (p : Phase) (cs : List T)
      → is_settled p o ≡ true
      → HoldsOf (StepsTo (worker b o p cs)) (worker_step quit (worker b o p cs))
  unfolding worker worker_step is_settled held bit
  steps quit b o starting cs s = elim o [
    | none ↦ (refl, (λ c. c), inl (refl, refl))
    | some t ↦ (refl, (λ c. c), inl (refl, refl))
  ]
  steps quit b (some t) testing cs s = (refl, (λ c. c), inl (refl, refl))
  steps true b none testing cs s = (refl, (λ c. c), inl (refl, refl))
  steps false b none testing cs s = (refl, (λ c. c), inl (refl, refl))
  steps quit b (some t) waiting cs s = (refl, (λ c. c), inl (refl, refl))
  steps quit b none waiting cs s = (refl, (λ c. c), inl (refl, refl))
  steps quit b (some t) running cs s = (refl, (λ c. c), inr (t, refl, refl, refl))
  steps quit b none running cs s = absurd (ground arith)
  steps quit b (some t) releasing cs s = absurd (ground arith)
  steps quit true none releasing cs s = (refl, (λ c. omega arith), inl (refl, refl))
  steps quit false none releasing cs s = (refl, (λ c. absurd (omega arith)), inl (refl, refl))
  steps quit b o exited cs s = tt

  pub worker_step-StepsTo :
      (quit : Bool) (w w' : Worker T) (ran : Option T)
      → IsSettled w
      → worker_step quit w ≡ some (w', ran)
      → StepsTo w (w', ran)
  unfolding worker
  worker_step-StepsTo quit w w' ran s e =
      subst (HoldsOf (StepsTo w)) e (steps quit w.is_working w.task w.phase w.callers s)

  -- The worker that a call has chosen.
  abbrev pub chosen : Worker T → T → Worker T
  chosen w t = record w { is_working = true; callers = t ∷ w.callers }

  -- The free worker that was found in `ws`.
  abbrev pub Found : List (Worker T) → T → List (Worker T) → Type 0
  Found ws t ws' =
      (i : ℕ) × (w : Worker T) × (get_elem? ws i ≡ some w)
      × (w.is_working ≡ false)
      × (ws' ≡ set ws i (chosen w t))

  claim_cons :
      (w : Worker T) (ws : List (Worker T)) (t : T) (b : Bool) (o : Option (List (Worker T)))
      → w.is_working ≡ b
      → HoldsOf (Found ws t) o
      → HoldsOf (Found (w ∷ ws) t) (
          let rest : Option (List (Worker T)) = elim o [
            | none ↦ none
            | some ws' ↦ some (w ∷ ws')
          ] in
          if b then rest else some (chosen w t ∷ ws))
  claim_cons w ws t false o e found = (0, w, refl, e, refl)
  claim_cons w ws t true none e found = tt
  claim_cons w ws t true (some ws') e (i, w', at_i, free, is) =
      (suc i, w', at_i, free, ap (◌∷◌ w) is)

  claim_rec : (ws : List (Worker T)) (t : T) → HoldsOf (Found ws t) (claim ws t)
  unfolding claim
  claim_rec [] t = tt
  claim_rec (w ∷ ws) t = claim_cons w ws t w.is_working (claim ws t) refl (claim_rec ws t)

  pub claim-Found : (ws ws' : List (Worker T)) (t : T) → claim ws t ≡ some ws' → Found ws t ws'
  claim-Found ws ws' t e = subst (HoldsOf (Found ws t)) e (claim_rec ws t)

  -- A thread whose lock is free is settled with any task, and holds nothing else.
  free_phase :
      (p : Phase) (t : T) → lock_free p ≡ true → (is_settled p (some t) ≡ true) × (held p none ≡ 0)
  unfolding lock_free is_settled held
  free_phase starting t free = (refl, refl)
  free_phase waiting t free = (refl, refl)
  free_phase testing t free = absurd (ground arith)
  free_phase running t free = absurd (ground arith)
  free_phase releasing t free = absurd (ground arith)
  free_phase exited t free = absurd (ground arith)

  nobody : (cs : List T) (b : Bool) → length cs + 1 ≡ bit b → cs ≡ []
  unfolding bit
  nobody [] b e = refl
  nobody (t ∷ cs) true e = absurd (omega arith)
  nobody (t ∷ cs) false e = absurd (omega arith)

  -- A call that has not been told to quit finds no task in the worker's place for it.
  stores :
      (b : Bool) (o : Option T) (p : Phase) (cs : List T) (t : T) (before behind : List T)
      → length cs + held p o ≡ bit b
      → cs ≡ before ++ t ∷ behind
      → lock_free p ≡ true
      → (o ≡ none) × (is_settled p (some t) ≡ true) × (length (before ++ behind) + 1 ≡ bit b)
  unfolding held bit
  stores b (some t') p cs t before behind c e free =
      let one : length (before ++ t ∷ behind) ≡ length before + suc (length behind) =
        length-append before (t ∷ behind) in
      let same : length cs ≡ length (before ++ t ∷ behind) = ap length e in
      absurd (
        elim b as (λ b. length cs + 1 ≡ bit b → ⊥) [
          | true ↦ λ c. absurd (omega (arith, one, same, c))
          | false ↦ λ c. absurd (omega (arith, one, same, c))
        ]
          c)
  stores b none p cs t before behind c e free =
      let one : length (before ++ t ∷ behind) ≡ length before + suc (length behind) =
        length-append before (t ∷ behind) in
      let same : length cs ≡ length (before ++ t ∷ behind) = ap length e in
      let (settled, nothing) = free_phase p t free in
      let joined : length (before ++ behind) ≡ length before + length behind =
        length-append before behind in
      (refl, settled, omega (arith, one, same, joined, nothing, c))

  pub hand_over-stores :
      (w : Worker T) (t : T) (before behind : List T)
      → IsCounted w
      → w.callers ≡ before ++ t ∷ behind
      → lock_free w.phase ≡ true
      → (w.task ≡ none)
        × (before ++ behind ≡ [])
        × IsSettled (hand_over false w t (before ++ behind))
        × IsCounted (hand_over false w t (before ++ behind))
  unfolding hand_over held
  hand_over-stores w t before behind c e free =
      let (empty, settled, counted) =
        stores w.is_working w.task w.phase w.callers t before behind c e free in
      (empty, nobody (before ++ behind) w.is_working counted, settled, counted)
