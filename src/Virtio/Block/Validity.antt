-- ===== src/Virtio/Block/Validity.antt =====
-- The block device's handler against the validity of the device.
use mvvmm.Base.{
  ℕ, ◌+◌, ◌/◌, ◌^◌, ◌<◌, List, [], ◌∷◌, ◌==◌, sub32, slt, is_positive, replicate, bit_or,
  if◌then◌else◌, Outcome, done, aborted, Ensures, Ensures-bind, Ensures-if, Code, success, failure,
  write_buf, int_to_u64, arith, u64, u16,
}
use mvvmm.Base.Bits.{bit_or_step, bit_or-zero}
use mvvmm.Guest.{GuestMem}
use mvvmm.Virtio.Device.{Machine}
use mvvmm.Virtio.Memory.{read16, write16, write32}
use mvvmm.Virtio.Chain.{memcpy_from_queue, memcpy_to_queue}
use mvvmm.Virtio.Queue.{queue_at, raise_used, used_entry_addr, trigger_irqfd, virtio_consume_desc}
use mvvmm.Virtio.Mmio.Valid.{IsValid}
use mvvmm.Virtio.Mmio.Invariant.{ServesValid}
use mvvmm.Virtio.Block.{
  BlockDevice, BlockRequest, header_type, header_size, status_byte, blk_t_in, blk_t_out, zeroed,
  virtio_block_req_end, submitted, recv_in, recv_out, virtio_block_recv_request,
}

set_bit_lt : (a : ℕ) → a < 2 ^ 32 → bit_or a 1 < 2 ^ 32
set_bit_lt a h = omega (arith, bit_or_step a 1, bit_or-zero (a / 2))

module _ {B : Type 0} where
  raise_used-IsValid :
      (flags : ℕ) (s : Machine B) → IsValid s.dev → IsValid (raise_used flags s).dev
  unfolding raise_used trigger_irqfd
  raise_used-IsValid flags s v = ground (arith, set_bit_lt s.dev.int_status v.int_status)

  -- `virtio_consume_desc` leaves a valid device valid.
  pub virtio_consume_desc-IsValid :
      (s : Machine B) (i d n : ℕ)
      → IsValid s.dev
      → Ensures (λ (t : Machine B). IsValid t.dev) (virtio_consume_desc s i d n)
  unfolding virtio_consume_desc
  virtio_consume_desc-IsValid s i d n v = Ensures-bind _ (queue_at s.dev i) _ λ q _.
      Ensures-bind _ (read16 s.mem (u64 (q.used_addr + 2))) _ λ index _.
        Ensures-bind _ (write32 s.mem (used_entry_addr q index) d) _ λ m1 _.
          Ensures-bind _ (write32 m1 (u64 (used_entry_addr q index + 4)) n) _ λ m2 _.
            Ensures-bind _ (write16 m2 (u64 (q.used_addr + 2)) (u16 (index + 1))) _ λ m3 _.
              Ensures-bind _ (read16 m3 q.avail_addr) _
                λ flags _. raise_used-IsValid flags (record s { mem = m3 }) v

  pub virtio_block_req_end-IsValid :
      (s : Machine B) (req : BlockRequest) (ret : Code)
      → IsValid s.dev
      → Ensures (λ (t : Machine B). IsValid t.dev) (virtio_block_req_end s req ret)
  unfolding virtio_block_req_end
  virtio_block_req_end-IsValid s req ret v = Ensures-bind _ (queue_at s.dev req.queue_idx) _ λ q _.
      Ensures-if _ (req.type == blk_t_in) _ _
        (Ensures-bind _
          (write_buf req.buf (int_to_u64 (sub32 req.write_size 1)) (status_byte ret ∷ [])) _
          λ buf _.
            Ensures-bind _ (memcpy_to_queue s.mem q req.desc_idx 0 buf req.write_size) _ λ r _.
              virtio_consume_desc-IsValid (record s { mem = r.1 }) req.queue_idx req.desc_idx
                req.write_size v)
        (Ensures-if _ (req.type == blk_t_out) _ aborted
          (Ensures-bind _ (memcpy_to_queue s.mem q req.desc_idx 0 (status_byte ret ∷ []) 1) _ λ r _.
            virtio_consume_desc-IsValid (record s { mem = r.1 }) req.queue_idx req.desc_idx 1 v)
          tt)

  abbrev Keeps : Outcome (Code × Machine B) → Type 0
  Keeps = Ensures (λ (p : Code × Machine B). IsValid p.1.dev)

  submitted-IsValid :
      (s : Machine B) (req : BlockRequest) (answer : Code × B)
      → IsValid s.dev
      → Keeps (submitted s req answer)
  unfolding submitted
  submitted-IsValid s req (success, b) v = v
  submitted-IsValid s req (failure, b) v =
      Ensures-bind _ (virtio_block_req_end (record s { backend = b }) req failure) _
        λ s' e. rw e at (virtio_block_req_end-IsValid (record s { backend = b }) req failure v)

  module _ (disk : BlockDevice B) where
    recv_in-IsValid :
        (s : Machine B) (h : List ℕ) (i d w : ℕ) → IsValid s.dev → Keeps (recv_in disk s h i d w)
    unfolding recv_in
    recv_in-IsValid s h i d w v = Ensures-bind _ (zeroed w) _ λ buf _. submitted-IsValid s _ _ v

    recv_out-IsValid :
        (s : Machine B) (h : List ℕ) (i d r w : ℕ)
        → IsValid s.dev
        → Keeps (recv_out disk s h i d r w)
    unfolding recv_out
    recv_out-IsValid s h i d r w v = Ensures-if _ (slt w 1) aborted _ tt (
        Ensures-if _ (is_positive (sub32 r header_size)) _ aborted
          (Ensures-bind _ (queue_at s.dev i) _ λ q _.
            Ensures-bind _ (zeroed (sub32 r header_size)) _ λ buf _.
              Ensures-bind _ (memcpy_from_queue s.mem buf q d header_size (sub32 r header_size)) _
                λ c _. submitted-IsValid s _ _ v)
          tt)

    -- Whatever the guest's request and the disk's answer, the handler of the block device leaves a
    -- valid device valid, where it returns.
    pub virtio_block_recv_request-ServesValid : ServesValid (virtio_block_recv_request disk)
    unfolding virtio_block_recv_request
    virtio_block_recv_request-ServesValid s i d r w v = Ensures-bind _ (queue_at s.dev i) _ λ q _.
        Ensures-bind _ (memcpy_from_queue s.mem (replicate header_size 0) q d 0 header_size) _
          λ c _. served c
      where
        served :
            (c : Code × GuestMem × List ℕ)
            → Keeps (elim c.0 [
              | failure ↦ done (success, s)
              | success ↦
                  if header_type c.2 == blk_t_in
                  then recv_in disk s c.2 i d w
                  else if header_type c.2 == blk_t_out
                  then recv_out disk s c.2 i d r w
                  else done (success, s)
            ])
        served (failure, m, h) = v
        served (success, m, h) =
            Ensures-if _ (header_type h == blk_t_in) _ _ (recv_in-IsValid s h i d w v) (
              Ensures-if _ (header_type h == blk_t_out) _ (done (success, s))
                (recv_out-IsValid s h i d r w v) v)
