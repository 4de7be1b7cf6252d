-- ===== src/Tests/Pool.antt =====
-- Two requests of the disk in a pool of two workers; the second is carried out first.
use mvvmm.Base.{
  ◌≡◌, refl, sym, subst, inl, true, false, Bool, Option, none, some, List, [], ◌∷◌, take, arith,
}
use mvvmm.Guest.{overlay}
use mvvmm.ThreadPool.{
  starting, testing, running, releasing, exited, Phase, Worker, Pool, lock_free, new_worker_thread,
  new_thread_pool, claim, hand_over, worker_step, log,
}
use mvvmm.ThreadPool.Steps.{chooses, hands_over, works, deletes, Reachable, created, then_step}
use mvvmm.ThreadPool.Bag.{all_stored}
use mvvmm.Virtio.Block.{BlockRequest, request, blk_t_out}
use mvvmm.Disk.{AsyncIoReq, block_io_worker_fn, io_result}
use mvvmm.Disk.Order.{Serves, here, more}
use mvvmm.Disk.Pool.{delete_thread_pool-in_order}
use mvvmm.Tests.Disk.{Bytes, ops, ops-IsFile, empty}

abbrev of_guest : BlockRequest
of_guest = request blk_t_out [] 0 0 0

abbrev first : AsyncIoReq
first = record { offset = 0; buf = 7 ∷ 8 ∷ []; count = 2; opaque = of_guest; is_write = true }

abbrev second : AsyncIoReq
second = record { offset = 2; buf = 9 ∷ []; count = 1; opaque = of_guest; is_write = true }

abbrev worker : Bool → Option AsyncIoReq → Phase → List AsyncIoReq → Worker AsyncIoReq
worker b o p cs = record { is_working = b; task = o; phase = p; callers = cs }

abbrev pool : List (Worker AsyncIoReq) → Bool → List AsyncIoReq → Pool AsyncIoReq
pool ws quit log = record { workers = ws; quit = quit; finished = log }

-- Both requests are stored.
abbrev handed : Pool AsyncIoReq
handed =
    pool (worker true (some first) starting [] ∷ worker true (some second) starting [] ∷ []) false
      []

unfoldable handed_steps : Reachable 2 handed
unfolding new_thread_pool new_worker_thread claim hand_over lock_free
handed_steps =
    then_step
      (then_step
        (then_step
          (then_step created (
            chooses first
              (worker true none starting (first ∷ []) ∷ worker false none starting [] ∷ []) refl))
          (hands_over first [] [] 0 (worker true none starting (first ∷ [])) refl refl refl))
        (chooses second
          (worker true (some first) starting [] ∷ worker true none starting (second ∷ []) ∷ [])
          refl))
      (hands_over second [] [] 1 (worker true none starting (second ∷ [])) refl refl refl)

-- Behind a task.
abbrev idle : Worker AsyncIoReq
idle = worker false none testing []

-- The second worker has run its task.
abbrev half : Pool AsyncIoReq
half = pool (worker true (some first) starting [] ∷ idle ∷ []) false (second ∷ [])

unfoldable half_steps : Reachable 2 half
unfolding worker_step log
half_steps =
    then_step
      (then_step
        (then_step
          (then_step handed_steps (
            works 1 (worker true (some second) starting []) (worker true (some second) testing [])
              none refl refl))
          (works 1 (worker true (some second) testing []) (worker true (some second) running [])
            none refl refl))
        (works 1 (worker true (some second) running []) (worker true none releasing [])
          (some second) refl refl))
      (works 1 (worker true none releasing []) idle none refl refl)

-- The first worker has run its own, the pool has ended, and both have returned.
abbrev ended : Pool AsyncIoReq
ended =
    pool (worker false none exited [] ∷ worker false none exited [] ∷ []) true (first ∷ second ∷ [])

unfoldable ended_steps : Reachable 2 ended
unfolding worker_step log
ended_steps =
    then_step
      (then_step
        (then_step
          (then_step
            (then_step
              (then_step
                (then_step half_steps (
                  works 0 (worker true (some first) starting [])
                    (worker true (some first) testing []) none refl refl))
                (works 0 (worker true (some first) testing []) (worker true (some first) running [])
                  none refl refl))
              (works 0 (worker true (some first) running []) (worker true none releasing [])
                (some first) refl refl))
            (works 0 (worker true none releasing []) idle none refl refl))
          deletes)
        (works 0 idle (worker false none exited []) none refl refl))
      (works 1 idle (worker false none exited []) none refl refl)

in_calls : all_stored ended_steps ≡ second ∷ first ∷ []
unfolding ended_steps half_steps handed_steps
in_calls = refl

abbrev written : Bytes → AsyncIoReq → Bytes
written f r = overlay f r.offset (take r.count r.buf)

as_run : Serves ops empty (first ∷ second ∷ []) (written (written empty second) first)
unfolding block_io_worker_fn io_result
as_run = more first.buf (more second.buf here refl) refl

as_called : Serves ops empty (second ∷ first ∷ []) (written (written empty first) second)
unfolding block_io_worker_fn io_result
as_called = more second.buf (more first.buf here refl) refl

delete_thread_pool-in_order_example :
    written (written empty second) first 1 ≡ written (written empty first) second 1
delete_thread_pool-in_order_example =
    delete_thread_pool-in_order ops (λ f. f) ops-IsFile 2 ended ended_steps empty
      (written (written empty second) first) (written (written empty first) second)
      (refl, (refl, tt)) ((inl (omega arith), tt), (tt, tt)) as_run
      (subst (λ l. Serves ops empty l (written (written empty first) second)) (sym in_calls)
        as_called)
      1
