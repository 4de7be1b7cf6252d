-- ===== src/Tests/ThreadPool.antt =====
-- Runs of a thread pool with one worker.
use mvvmm.Base.{ℕ, ◌≡◌, refl, true, false, none, some, List, [], ◌∷◌, ◌++◌}
use mvvmm.ThreadPool.{
  starting, testing, exited, Phase, Worker, Pool, lock_free, new_worker_thread, new_thread_pool,
  claim, hand_over, worker_step, log,
}
use mvvmm.ThreadPool.Steps.{
  chooses, refuses, hands_over, works, deletes, Reachable, created, then_step,
}
use mvvmm.ThreadPool.Invariant.{thread_pool_run-exclusive}
use mvvmm.ThreadPool.Refinement.{Move, tasks_of, stored_in, Step-Move}
use mvvmm.ThreadPool.Drained.{
  delete_thread_pool-drained, Later, now, further, IsStuck, thread_pool_run-IsStuck,
}

abbrev worker : Phase → List ℕ → Worker ℕ
worker p cs = record { is_working = false; task = none; phase = p; callers = cs }

abbrev taken : Phase → Worker ℕ
taken p = record { is_working = true; task = none; phase = p; callers = 7 ∷ [] }

-- A call has chosen the worker for the task 7.
abbrev one_call : Pool ℕ
one_call = record { workers = taken starting ∷ []; quit = false; finished = [] }

one_call-Reachable : Reachable 1 one_call
unfolding new_thread_pool new_worker_thread claim
one_call-Reachable = then_step created (chooses 7 (taken starting ∷ []) refl)

abbrev no_others : List ℕ
no_others = []

thread_pool_run-exclusive_example :
    ((taken starting).task ≡ none)
    × (no_others ++ no_others ≡ [])
    × (hand_over false (taken starting) 7 (no_others ++ no_others)
        ≡ record (taken starting) { task = some 7; callers = [] })
unfolding lock_free
thread_pool_run-exclusive_example =
    thread_pool_run-exclusive 1 one_call 0 (taken starting) 7 [] [] one_call-Reachable refl refl
      refl refl

abbrev stored : Pool ℕ
stored = record {
  workers = hand_over false (taken starting) 7 [] ∷ [];
  quit = false;
  finished = [];
}

Step-Move_example : Move (tasks_of one_call) (some 7) (tasks_of stored)
unfolding lock_free
Step-Move_example =
    Step-Move 1 one_call stored one_call-Reachable
      (hands_over 7 [] [] 0 (taken starting) refl refl refl)

-- The worker returns without a task.
abbrev ended : Pool ℕ
ended = record { workers = worker exited [] ∷ []; quit = true; finished = [] }

ended-Reachable : Reachable 1 ended
unfolding new_thread_pool new_worker_thread worker_step log
ended-Reachable =
    then_step
      (then_step (then_step created deletes)
        (works 0 (worker starting []) (worker testing []) none refl refl))
      (works 0 (worker testing []) (worker exited []) none refl refl)

delete_thread_pool-drained_example : stored_in ended.workers ≡ []
delete_thread_pool-drained_example = delete_thread_pool-drained 1 ended ended-Reachable (refl, tt)

-- A call behind the end, and another that finds no worker.
abbrev late : Pool ℕ
late = record { workers = taken exited ∷ []; quit = true; finished = [] }

late-IsStuck : IsStuck (7 ∷ []) 0 late
late-IsStuck = record {
  worker = taken exited;
  at_i = refl;
  gone = refl;
  newer = [];
  callers = refl;
}

refused : Later late late
unfolding claim
refused = further now (refuses 8 refl)

thread_pool_run-IsStuck_example : IsStuck (7 ∷ []) 0 late
thread_pool_run-IsStuck_example = thread_pool_run-IsStuck (7 ∷ []) 0 late late late-IsStuck refused
