-- ===== src/Disk.antt =====
-- The disk image (blkdev.c): the requests of the block device, the worker that carries them out, and the
-- set-up. The file, `pread` and `pwrite`, and the hand-over to the pool, `thread_pool_run`, are
-- parameters.
pub mod Sectors
pub mod Setup
pub mod Service
pub mod Order
pub mod Pool
use mvvmm.Base.{
  ℕ, ◌*◌, ◌/◌, Bool, true, false, Option, none, some, List, [], ◌∷◌, ◌==◌, if◌then◌else◌, u32, u64,
  int_to_u64, Code, success, failure,
}
use mvvmm.Virtio.Block.{BlockDevice, BlockRequest, sector_size}

-- `struct async_io_req`; `opaque` is the request of the guest that the callback ends. There is one
-- file.
pub record AsyncIoReq : Type 0 where
  pub offset : ℕ
  pub buf : List ℕ
  pub count : ℕ
  pub opaque : BlockRequest
  pub is_write : Bool

-- `pread` and `pwrite` on the file: the number of bytes, `none` for -1, and for `pread` the buffer.
pub record FileOps (F : Type 0) : Type 0 where
  pub pread : F → List ℕ → ℕ → ℕ → Option ℕ × List ℕ
  pub pwrite : F → List ℕ → ℕ → ℕ → Option ℕ × F

-- `ret` from `n` and `req->count`.
unfoldable pub io_result : Option ℕ → ℕ → Code
io_result none count = failure
io_result (some n) count = if n == count then success else failure

-- The worker: what it calls back with, the buffer then, and the file.
unfoldable pub block_io_worker_fn : {F : Type 0} → FileOps F → F → AsyncIoReq → Code × List ℕ × F
block_io_worker_fn ops f req =
    let (wrote, f') = ops.pwrite f req.buf req.count req.offset in
    let (got, buf') = ops.pread f req.buf req.count req.offset in
    if req.is_write
    then (io_result wrote req.count, req.buf, f')
    else (io_result got req.count, buf', f)

-- The file's size in the context.
unfoldable pub block_get_sector_count : ℕ → ℕ
block_get_sector_count size = size / sector_size

-- The request for `n` sectors, an `int`, at `sector_num`.
unfoldable pub io_req : Bool → ℕ → List ℕ → ℕ → BlockRequest → AsyncIoReq
io_req is_write sector_num buf n opaque = record {
  offset = u64 (sector_num * sector_size);
  buf = buf;
  count = int_to_u64 (u32 (n * sector_size));
  opaque = opaque;
  is_write = is_write;
}

-- `malloc`, as the states in which it gives memory, and the pool.
pub record Host (B : Type 0) : Type 0 where
  pub malloc : B → Bool
  pub thread_pool_run : B → AsyncIoReq → Code × B

module _ {B : Type 0} (host : Host B) where
  unfoldable pub block_read_async : B → ℕ → List ℕ → ℕ → BlockRequest → Code × B
  block_read_async b sector_num buf n opaque =
      if host.malloc b
      then host.thread_pool_run b (io_req false sector_num buf n opaque)
      else (failure, b)

  unfoldable pub block_write_async : B → ℕ → List ℕ → ℕ → BlockRequest → Code × B
  block_write_async b sector_num buf n opaque =
      if host.malloc b
      then host.thread_pool_run b (io_req true sector_num buf n opaque)
      else (failure, b)

  -- The functions in `struct block_device`. A read fills the buffer of the guest's request.
  abbrev pub disk_image : BlockDevice B
  disk_image = record {
    read_async = λ b sector_num n req. block_read_async b sector_num req.buf n req;
    write_async = block_write_async;
  }
