-- ===== src/ThreadPool/Drained.antt =====
-- The end of a pool: `delete_thread_pool` waits until every worker has returned.
use mvvmm.Base.{
  some_inj, none-some, ℕ, zero, suc, ◌≡◌, ◌⊎◌, inl, inr, append_assoc, refl, sym, ap, subst, ◌∙◌,
  Bool, true, false, Option, none, some, List, [], ◌∷◌, ◌++◌, get_elem?, set, arith,
}
use mvvmm.ThreadPool.{Phase, exited, Worker, Pool, lock_free, hand_over, worker_step}
use mvvmm.ThreadPool.Lists.{All}
use mvvmm.ThreadPool.Steps.{Step, chooses, refuses, races, hands_over, works, deletes, Reachable}
use mvvmm.ThreadPool.Turn.{is_settled, IsSettled, chosen, claim-Found}
use mvvmm.ThreadPool.Invariant.{Reachable-IsSound}
use mvvmm.ThreadPool.Refinement.{stored_in}

locked : (p : Phase) → lock_free p ≡ true → p ≡ exited → ⊥
unfolding lock_free
locked p free e = false_true (subst (λ p. lock_free p ≡ true) e free)
  where
    false_true : false ≡ true → ⊥
    false_true f = ground arith

module _ {T : Type 0} where
  no_task : (p : Phase) (o : Option T) → p ≡ exited → is_settled p o ≡ true → o ≡ none
  unfolding is_settled
  no_task p none e s = refl
  no_task p (some t) e s = absurd (left_over (subst (λ p. is_settled p (some t) ≡ true) e s))
    where
      left_over : false ≡ true → ⊥
      left_over f = ground arith

  All-empty :
      (ws : List (Worker T)) → All IsSettled ws → All (λ w. w.phase ≡ exited) ws → stored_in ws ≡ []
  unfolding stored_in
  All-empty [] s e = refl
  All-empty (w ∷ ws) (s, ss) (e, es) = rw (no_task w.phase w.task e s) (All-empty ws ss es)

  -- When all the workers of a pool have returned, which is what `delete_thread_pool` waits for, no
  -- stored task is left: each has been run.
  pub delete_thread_pool-drained :
      (n : ℕ) (s : Pool T)
      → Reachable n s
      → All (λ w. w.phase ≡ exited) s.workers
      → stored_in s.workers ≡ []
  delete_thread_pool-drained n s r e = All-empty s.workers (Reachable-IsSound n r).settled e

  -- The states behind `s`.
  pub data Later (s : Pool T) : Pool T → Type 0 where
    now : Later s s
    further : {s' s'' : Pool T} → Later s s' → Step s' s'' → Later s s''

  -- Worker `i` has returned, and calls that have chosen it, `waits` among them, wait for its lock.
  pub record IsStuck (waits : List T) (i : ℕ) (s : Pool T) : Type 0 where
    pub worker : Worker T
    pub at_i : get_elem? s.workers i ≡ some worker
    pub gone : worker.phase ≡ exited
    pub newer : List T
    pub callers : worker.callers ≡ newer ++ waits

  -- A worker replaced: the one at `i`, or another.
  get_elem?-set :
      (ws : List (Worker T)) (i j : ℕ) (w v v' : Worker T)
      → get_elem? ws i ≡ some w
      → get_elem? ws j ≡ some v
      → ((get_elem? (set ws j v') i ≡ some v') × (w ≡ v)) ⊎ (get_elem? (set ws j v') i ≡ some w)
  get_elem?-set [] i j w v v' e f = inr e
  get_elem?-set (x ∷ ws) zero zero w v v' e f = inl (refl, sym (some_inj e) ∙ some_inj f)
  get_elem?-set (x ∷ ws) zero (suc j) w v v' e f = inr e
  get_elem?-set (x ∷ ws) (suc i) zero w v v' e f = inr e
  get_elem?-set (x ∷ ws) (suc i) (suc j) w v v' e f = get_elem?-set ws i j w v v' e f

  stays-IsStuck :
      (waits : List T) (i j : ℕ) (s : Pool T) (v v' : Worker T) (q : Bool) (ts : List T)
      → IsStuck waits i s
      → get_elem? s.workers j ≡ some v
      → (v.phase ≡ exited
          → (v'.phase ≡ exited) × ((more : List T) × (v'.callers ≡ more ++ v.callers)))
      → IsStuck waits i (record { workers = set s.workers j v'; quit = q; finished = ts })
  stays-IsStuck waits i j s v v' q ts stuck at_j keeps =
      elim (get_elem?-set s.workers i j stuck.worker v v' stuck.at_i at_j) [
        | inl (at_i, same) ↦
            let (gone, (more, e)) =
              keeps (ap (λ (w : Worker T). w.phase) (sym same) ∙ stuck.gone) in
            record {
              worker = v';
              at_i = at_i;
              gone = gone;
              newer = more ++ stuck.newer;
              callers =
                  e
                  ∙ ap (◌++◌ more) (ap (λ (w : Worker T). w.callers) (sym same) ∙ stuck.callers)
                  ∙ sym (append_assoc more stuck.newer waits);
            }
        | inr at_i ↦ record {
          worker = stuck.worker;
          at_i = at_i;
          gone = stuck.gone;
          newer = stuck.newer;
          callers = stuck.callers;
        }
      ]

  returned :
      (q : Bool) (w : Worker T) (r : Worker T × Option T)
      → worker_step q w ≡ some r
      → w.phase ≡ exited
      → ⊥
  unfolding worker_step
  returned q w r e gone = none-some (sym (no_step gone) ∙ e)
    where
      no_step : w.phase ≡ exited → worker_step q w ≡ none
      no_step gone = rw gone refl

  Step-IsStuck :
      (waits : List T) (i : ℕ) {s s' : Pool T} → Step s s' → IsStuck waits i s → IsStuck waits i s'
  Step-IsStuck waits i {s} (chooses t ws e) stuck =
      let (j, v, at_j, free, is) = claim-Found s.workers ws t e in
      subst (λ ws. IsStuck waits i (record { workers = ws; quit = s.quit; finished = s.finished }))
        (sym is)
        (stays-IsStuck waits i j s v (chosen v t) s.quit s.finished stuck at_j
          λ gone. (gone, (t ∷ [], refl)))
  Step-IsStuck waits i (refuses t e) stuck = stuck
  Step-IsStuck waits i {s} (races t j v quit at_j) stuck =
      stays-IsStuck waits i j s v (chosen v t) s.quit s.finished stuck at_j
        λ gone. (gone, (t ∷ [], refl))
  Step-IsStuck waits i {s} (hands_over t before behind j v at_j e free) stuck =
      stays-IsStuck waits i j s v (hand_over s.quit v t (before ++ behind)) s.quit s.finished stuck
        at_j λ gone. absurd (locked v.phase free gone)
  Step-IsStuck waits i {s} (works j v v' ran at_j e) stuck =
      stays-IsStuck waits i j s v v' s.quit _ stuck at_j
        λ gone. absurd (returned s.quit v (v', ran) e gone)
  Step-IsStuck waits i {s} deletes stuck = record {
    worker = stuck.worker;
    at_i = stuck.at_i;
    gone = stuck.gone;
    newer = stuck.newer;
    callers = stuck.callers;
  }

  -- A call of `thread_pool_run` that has chosen a worker whose thread has returned never gets its lock,
  -- whatever the threads do from then on: the thread returned with the lock.
  pub thread_pool_run-IsStuck :
      (waits : List T) (i : ℕ) (s s' : Pool T) → IsStuck waits i s → Later s s' → IsStuck waits i s'
  thread_pool_run-IsStuck waits i s s' stuck now = stuck
  thread_pool_run-IsStuck waits i s s' stuck (further {s' = s1} later step) =
      Step-IsStuck waits i step (thread_pool_run-IsStuck waits i s s1 stuck later)
