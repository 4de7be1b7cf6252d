-- ===== src/ThreadPool/Invariant.antt =====
-- The invariant of the pool over every interleaving of its threads.
use mvvmm.Base.{
  HoldsOf, ℕ, ◌≡◌, refl, sym, ap, subst, Bool, true, false, none, some, List, [], ◌∷◌, ◌++◌,
  get_elem?, set, arith,
}
use mvvmm.ThreadPool.{Worker, Pool, lock_free, hand_over, new_thread_pool, new_worker_thread}
use mvvmm.ThreadPool.Lists.{All, All-get, All-set, All-replicate}
use mvvmm.ThreadPool.Steps.{
  Step, chooses, refuses, races, hands_over, works, deletes, Reachable, created, then_step,
}
use mvvmm.ThreadPool.Turn.{
  is_settled, held, bit, IsSettled, IsCounted, worker_step-StepsTo, chosen, claim-Found,
  hand_over-stores,
}

module _ {T : Type 0} where
  -- Every thread is settled; and until the pool is told to quit, every worker is counted.
  pub record IsSound (s : Pool T) : Type 0 where
    pub settled : All IsSettled s.workers
    pub counted : s.quit ≡ false → All IsCounted s.workers

  pub at_index :
      (P : Worker T → Type 0) (ws : List (Worker T)) (i : ℕ) (w : Worker T)
      → All P ws
      → get_elem? ws i ≡ some w
      → P w
  at_index P ws i w all e = subst (HoldsOf P) e (All-get P ws i all)

  chosen-IsCounted :
      (w : Worker T) (t : T) → w.is_working ≡ false → IsCounted w → IsCounted (chosen w t)
  unfolding bit
  chosen-IsCounted w t free c =
      let none_yet : bit w.is_working ≡ 0 = ap bit free in omega (arith, c, none_yet)

  replaced :
      (s : Pool T) (i : ℕ) (w : Worker T)
      → IsSound s
      → IsSettled w
      → (s.quit ≡ false → IsCounted w)
      → IsSound (record s { workers = set s.workers i w })
  replaced s i w sound settled counted = record {
    settled = All-set IsSettled s.workers i w sound.settled settled;
    counted = λ open'. All-set IsCounted s.workers i w (sound.counted open') (counted open');
  }

  given :
      (s : Pool T) (w : Worker T) (t : T) (before behind : List T) (quit : Bool)
      → IsSettled w
      → (quit ≡ false → IsCounted w)
      → w.callers ≡ before ++ t ∷ behind
      → lock_free w.phase ≡ true
      → IsSettled (hand_over quit w t (before ++ behind))
        × (quit ≡ false → IsCounted (hand_over quit w t (before ++ behind)))
  unfolding hand_over
  given s w t before behind true settled counted e free = (settled, λ f. absurd (ground arith))
  given s w t before behind false settled counted e free =
      let (_, _, kept, counts) = hand_over-stores w t before behind (counted refl) e free in
      (kept, λ f. counts)

  pub Step-IsSound : {s s' : Pool T} → Step s s' → IsSound s → IsSound s'
  Step-IsSound {s} (chooses t ws e) sound =
      let (i, w, at_i, free, is) = claim-Found s.workers ws t e in
      subst (λ ws. IsSound (record s { workers = ws })) (sym is)
        (replaced s i (chosen w t) sound (at_index IsSettled s.workers i w sound.settled at_i)
          (λ open'.
            chosen-IsCounted w t free
              (at_index IsCounted s.workers i w (sound.counted open') at_i)))
  Step-IsSound (refuses t e) sound = sound
  Step-IsSound {s} (races t i w quit at_i) sound =
      replaced s i (chosen w t) sound (at_index IsSettled s.workers i w sound.settled at_i)
        (λ open'. absurd (ground (arith, quit, open')))
  Step-IsSound {s} (hands_over t before behind i w at_i e free) sound =
      let (settled, counted) =
        given s w t before behind s.quit (at_index IsSettled s.workers i w sound.settled at_i)
          (λ open'. at_index IsCounted s.workers i w (sound.counted open') at_i) e free in
      replaced s i (hand_over s.quit w t (before ++ behind)) sound settled counted
  Step-IsSound {s} (works i w w' ran at_i e) sound =
      let (settled, counts, _) =
        worker_step-StepsTo s.quit w w' ran (at_index IsSettled s.workers i w sound.settled at_i)
          e in
      let same =
        replaced s i w' sound settled
          (λ open'. counts (at_index IsCounted s.workers i w (sound.counted open') at_i)) in
      record { settled = same.settled; counted = same.counted }
  Step-IsSound deletes sound = record {
    settled = sound.settled;
    counted = λ open'. absurd (ground arith);
  }

  new-IsSound : (n : ℕ) → IsSound (new_thread_pool n)
  unfolding new_thread_pool is_settled held bit
  new-IsSound n = record {
    settled = All-replicate IsSettled n new_worker_thread refl;
    counted = λ open'. All-replicate IsCounted n new_worker_thread refl;
  }

  pub Reachable-IsSound : (n : ℕ) {s : Pool T} → Reachable n s → IsSound s
  Reachable-IsSound n created = new-IsSound n
  Reachable-IsSound n (then_step r step) = Step-IsSound step (Reachable-IsSound n r)

  -- Over every interleaving of the threads of a pool of `n` workers, until it is told to quit: a call
  -- that has chosen a worker and gets its lock finds no task there, so that the task which it
  -- stores takes the place of none; and no other call has chosen the worker.
  pub thread_pool_run-exclusive :
      (n : ℕ) (s : Pool T) (i : ℕ) (w : Worker T) (t : T) (before behind : List T)
      → Reachable n s
      → s.quit ≡ false
      → get_elem? s.workers i ≡ some w
      → w.callers ≡ before ++ t ∷ behind
      → lock_free w.phase ≡ true
      → (w.task ≡ none)
        × (before ++ behind ≡ [])
        × (hand_over s.quit w t (before ++ behind) ≡ record w { task = some t; callers = [] })
  unfolding hand_over
  thread_pool_run-exclusive n s i w t before behind r open' at_i e free =
      let sound = Reachable-IsSound n r in
      let (empty, alone, _, _) =
        hand_over-stores w t before behind
          (at_index IsCounted s.workers i w (sound.counted open') at_i) e free in
      (empty, alone, rw open' (ap (λ cs. record w { task = some t; callers = cs }) alone))
