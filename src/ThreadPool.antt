-- ===== src/ThreadPool.antt =====
-- The thread pool (threadpool.c): `thread_pool_run`, `worker_thread_fn` and the start of
-- `delete_thread_pool`, as steps of their threads. A step runs from one point where a thread holds or
-- waits for a lock to the next. `T` stands for a task, a function with its argument.
pub mod Lists
pub mod Steps
pub mod Turn
pub mod Invariant
pub mod Refinement
pub mod Drained
pub mod Bag
use mvvmm.Base.{
  ℕ, zero, suc, Bool, true, false, Option, none, some, List, [], ◌∷◌, if◌then◌else◌, get_elem?, set,
  replicate,
}

-- Where a worker's thread is: before its first line, in the test of the inner loop, in
-- `pthread_cond_timedwait`, in the task, behind it, and returned.
pub data Phase : Type 0 where
  starting : Phase
  testing : Phase
  waiting : Phase
  running : Phase
  releasing : Phase
  exited : Phase

-- `struct worker_thread` with its `is_working`: `task` is `task_fn` and `arg`, and `callers` are the
-- tasks of the calls of `thread_pool_run` that have chosen the worker and wait for its lock.
pub record Worker (T : Type 0) : Type 0 where
  pub is_working : Bool
  pub task : Option T
  pub phase : Phase
  pub callers : List T

-- `struct thread_pool`, and the tasks that have been run, latest first.
pub record Pool (T : Type 0) : Type 0 where
  pub workers : List (Worker T)
  pub quit : Bool
  pub finished : List T

-- A thread that has returned still holds the lock of its worker.
unfoldable pub lock_free : Phase → Bool
lock_free starting = true
lock_free waiting = true
lock_free _ = false

module _ {T : Type 0} where
  unfoldable pub new_worker_thread : Worker T
  new_worker_thread = record { is_working = false; task = none; phase = starting; callers = [] }

  unfoldable pub new_thread_pool : ℕ → Pool T
  unfolding new_worker_thread
  new_thread_pool thread_num = record {
    workers = replicate thread_num new_worker_thread;
    quit = false;
    finished = [];
  }

  -- The loop of `thread_pool_run` under the pool's lock: the first worker that is free.
  unfoldable pub claim : List (Worker T) → T → Option (List (Worker T))
  claim [] t = none
  claim (w ∷ ws) t =
      let rest : Option (List (Worker T)) = elim (claim ws t) [
        | none ↦ none
        | some ws' ↦ some (w ∷ ws')
      ] in
      if w.is_working
      then rest
      else some (record w { is_working = true; callers = t ∷ w.callers } ∷ ws)

  -- The rest of the call, under the worker's lock; `others` are the calls that still wait for it.
  unfoldable pub hand_over : Bool → Worker T → T → List T → Worker T
  hand_over quit w t others =
      if quit then record w { callers = others } else record w { task = some t; callers = others }

  -- A step of `worker_thread_fn`, with the task that it has run. `none`: the thread has returned.
  unfoldable pub worker_step : Bool → Worker T → Option (Worker T × Option T)
  worker_step quit w = elim w.phase [
    | starting ↦ some (record w { phase = testing }, none)
    | testing ↦ elim w.task [
      | some t ↦ some (record w { phase = running }, none)
      | none ↦ some (record w { phase = if quit then exited else waiting }, none)
    ]
    | waiting ↦ some (record w { phase = testing }, none)
    | running ↦ some (record w { task = none; phase = releasing }, w.task)
    | releasing ↦ some (record w { is_working = false; phase = testing }, none)
    | exited ↦ none
  ]

  unfoldable pub log : Option T → List T → List T
  log none ts = ts
  log (some t) ts = t ∷ ts
