-- ===== src/Virtio/Block.antt =====
-- The block device (virtio.c): requests from the queue, and their completion. The disk behind it,
-- `struct block_device`, is the parameter `disk`; it keeps the request until it calls back with the
-- result, and the buffer of a read is filled by then.
pub mod Request
pub mod Validity
pub mod Complete
use mvvmm.Base.{
  ℕ, ◌+◌, ◌-◌, ◌/◌, ◌%◌, ◌^◌, List, [], ◌∷◌, ltb, ◌==◌, if◌then◌else◌, sub32, slt, is_positive,
  is_negative, int_to_u64, take, drop, replicate, Outcome, done, crash, aborted, ◌>>=◌, write_buf,
  Code, success, failure,
}
use mvvmm.Guest.{le_value}
use mvvmm.Virtio.Device.{Machine}
use mvvmm.Virtio.Chain.{memcpy_from_queue, memcpy_to_queue}
use mvvmm.Virtio.Queue.{Recv, queue_at, virtio_consume_desc, queue_notify}

abbrev pub blk_t_in : ℕ
blk_t_in = 0

abbrev pub blk_t_out : ℕ
blk_t_out = 1

abbrev pub sector_size : ℕ
sector_size = 512

-- `struct block_request`
pub record BlockRequest : Type 0 where
  pub type : ℕ
  pub buf : List ℕ
  pub write_size : ℕ
  pub queue_idx : ℕ
  pub desc_idx : ℕ

abbrev pub request : ℕ → List ℕ → ℕ → ℕ → ℕ → BlockRequest
request type buf write_size queue_idx desc_idx = record {
  type = type;
  buf = buf;
  write_size = write_size;
  queue_idx = queue_idx;
  desc_idx = desc_idx;
}

-- `struct block_device`: a call takes the request, or refuses it at once.
pub record BlockDevice (B : Type 0) : Type 0 where
  pub read_async : B → ℕ → ℕ → BlockRequest → Code × B
  pub write_async : B → ℕ → List ℕ → ℕ → BlockRequest → Code × B

-- `struct block_request_header`: type, ioprio, sector_num.
abbrev pub header_size : ℕ
header_size = 16

abbrev pub header_type : List ℕ → ℕ
header_type h = le_value (take 4 h)

abbrev pub header_sector : List ℕ → ℕ
header_sector h = le_value (take 8 (drop 8 h))

-- `malloc` and `memset(.., 0, ..)`. Of a negative `int` the size is beyond what `malloc` gives, and
-- the `memset` writes through NULL.
unfoldable pub zeroed : ℕ → Outcome (List ℕ)
zeroed n = if is_negative n then crash else done (replicate n 0)

-- `/ SECTOR_SIZE` on `int`: the quotient is rounded towards 0.
unfoldable pub sectors : ℕ → ℕ
sectors n =
    if is_negative n then (2 ^ 32 - (2 ^ 32 - n) / sector_size) % 2 ^ 32 else n / sector_size

-- VIRTIO_BLK_S_OK and VIRTIO_BLK_S_IOERR
abbrev pub status_byte : Code → ℕ
status_byte success = 0
status_byte failure = 1

module _ {B : Type 0} where
  unfoldable pub virtio_block_req_end : Machine B → BlockRequest → Code → Outcome (Machine B)
  virtio_block_req_end s req ret = do
    q ← queue_at s.dev req.queue_idx
    if req.type == blk_t_in
        then (do
          buf ← write_buf req.buf (int_to_u64 (sub32 req.write_size 1)) (status_byte ret ∷ [])
          (_, m, _) ← memcpy_to_queue s.mem q req.desc_idx 0 buf req.write_size
          virtio_consume_desc (record s { mem = m }) req.queue_idx req.desc_idx req.write_size)
        else if req.type == blk_t_out
        then (do
          (_, m, _) ← memcpy_to_queue s.mem q req.desc_idx 0 (status_byte ret ∷ []) 1
          virtio_consume_desc (record s { mem = m }) req.queue_idx req.desc_idx 1)
        else aborted

  -- After a refusal the request ends at once, and the caller of the handler sees a success.
  unfoldable pub submitted : Machine B → BlockRequest → Code × B → Outcome (Code × Machine B)
  submitted s req (ret, b) = elim ret [
    | success ↦ done (success, record s { backend = b })
    | failure ↦ do
      s' ← virtio_block_req_end (record s { backend = b }) req failure
      done (success, s')
  ]

  module _ (disk : BlockDevice B) where
    unfoldable pub recv_in : Machine B → List ℕ → ℕ → ℕ → ℕ → Outcome (Code × Machine B)
    recv_in s h queue_idx desc_idx write_size = do
      buf ← zeroed write_size
      let req = request (header_type h) buf write_size queue_idx desc_idx
      submitted s req
          (disk.read_async s.backend (header_sector h) (sectors (sub32 write_size 1)) req)

    unfoldable pub recv_out : Machine B → List ℕ → ℕ → ℕ → ℕ → ℕ → Outcome (Code × Machine B)
    recv_out s h queue_idx desc_idx read_size write_size = if slt write_size 1 then aborted else do
      let len = sub32 read_size header_size
      if is_positive len
          then (do
            q ← queue_at s.dev queue_idx
            buf ← zeroed len
            (_, _, buf') ← memcpy_from_queue s.mem buf q desc_idx header_size len
            let req = request (header_type h) [] 0 queue_idx desc_idx
            submitted s req (disk.write_async s.backend (header_sector h) buf' (sectors len) req))
          else aborted

    unfoldable pub virtio_block_recv_request : Recv B
    virtio_block_recv_request s queue_idx desc_idx read_size write_size = do
      q ← queue_at s.dev queue_idx
      (code, _, h) ← memcpy_from_queue s.mem (replicate header_size 0) q desc_idx 0 header_size
      elim code [
        | failure ↦ done (success, s)
        | success ↦
            if header_type h == blk_t_in
            then recv_in s h queue_idx desc_idx write_size
            else if header_type h == blk_t_out
            then recv_out s h queue_idx desc_idx read_size write_size
            else done (success, s)
      ]

    -- The callback of the disk: the request ends, and the queue is looked at again.
    unfoldable pub virtio_block_req_cb :
        ℕ → ℕ → Machine B → BlockRequest → Code → Outcome (Machine B)
    virtio_block_req_cb fuel chain_fuel s req ret = do
      s' ← virtio_block_req_end s req ret
      queue_notify chain_fuel virtio_block_recv_request req.queue_idx fuel s'
