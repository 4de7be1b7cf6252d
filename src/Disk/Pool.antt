-- ===== src/Disk/Pool.antt =====
-- The disk image behind the thread pool.
use mathlib.Core.List.{Perm}
use mvvmm.Base.{ℕ, ◌≡◌, subst, ◌++◌}
use mvvmm.ThreadPool.{Pool, exited}
use mvvmm.ThreadPool.Lists.{All}
use mvvmm.ThreadPool.Steps.{Reachable}
use mvvmm.ThreadPool.Bag.{all_stored, Reachable-bag}
use mvvmm.ThreadPool.Drained.{delete_thread_pool-drained}
use mvvmm.Disk.{FileOps, AsyncIoReq}
use mvvmm.Disk.Sectors.{IsFile}
use mvvmm.Disk.Order.{AllDisjoint, Serves, block_io_worker_fn-order}

module _ {F : Type 0} (ops : FileOps F) (byte : F → ℕ → ℕ) (file : IsFile ops byte) where
  -- A pool of any number of workers, whose tasks are requests of the disk, after any interleaving of the
  -- calls and the workers in the end of which all workers have returned. Where the ranges of the
  -- requests that have been run are disjoint, and all of them have been carried out with success in
  -- the order in which the workers have run them, the regular file has the bytes that it has when the
  -- requests that were stored are carried out with success in the order of the calls.
  pub delete_thread_pool-in_order :
      (n : ℕ) (s : Pool AsyncIoReq) (r : Reachable n s) (f h h' : F)
      → All (λ w. w.phase ≡ exited) s.workers
      → AllDisjoint s.finished
      → Serves ops f s.finished h
      → Serves ops f (all_stored r) h'
      → (p : ℕ) → byte h p ≡ byte h' p
  delete_thread_pool-in_order n s r f h h' all apart serves serves' =
      let perm : Perm s.finished (all_stored r) =
        subst (λ l. Perm (l ++ s.finished) (all_stored r)) (delete_thread_pool-drained n s r all)
          (Reachable-bag n s r) in
      block_io_worker_fn-order ops byte file f h h' s.finished (all_stored r) perm apart serves
        serves'
