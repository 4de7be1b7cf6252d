-- ===== src/ThreadPool/Steps.antt =====
-- The pool's threads side by side.
use mvvmm.Base.{ℕ, ◌≡◌, true, Option, none, some, List, ◌∷◌, ◌++◌, get_elem?, set}
use mvvmm.ThreadPool.{Worker, Pool, lock_free, claim, hand_over, worker_step, log, new_thread_pool}

module _ {T : Type 0} where
  -- One step of one thread. `races`: a worker that returns unlocks the pool's lock, which it does not
  -- hold, so that once `quit` is set two calls may choose one worker.
  pub data Step (s : Pool T) : Pool T → Type 0 where
    chooses :
        (t : T) (ws : List (Worker T))
        → claim s.workers t ≡ some ws
        → Step s (record s { workers = ws })
    refuses : (t : T) → claim s.workers t ≡ none → Step s s
    races :
        (t : T) (i : ℕ) (w : Worker T)
        → s.quit ≡ true
        → get_elem? s.workers i ≡ some w
        → Step s (record s {
          workers = set s.workers i (record w { is_working = true; callers = t ∷ w.callers });
        })
    hands_over :
        (t : T) (before behind : List T) (i : ℕ) (w : Worker T)
        → get_elem? s.workers i ≡ some w
        → w.callers ≡ before ++ t ∷ behind
        → lock_free w.phase ≡ true
        → Step s (record s { workers = set s.workers i (hand_over s.quit w t (before ++ behind)) })
    works :
        (i : ℕ) (w w' : Worker T) (ran : Option T)
        → get_elem? s.workers i ≡ some w
        → worker_step s.quit w ≡ some (w', ran)
        → Step s (record s { workers = set s.workers i w'; finished = log ran s.finished })
    deletes : Step s (record s { quit = true })

  -- The states of a pool of `n` workers.
  pub data Reachable (n : ℕ) : Pool T → Type 0 where
    created : Reachable n (new_thread_pool n)
    then_step : {s s' : Pool T} → Reachable n s → Step s s' → Reachable n s'
