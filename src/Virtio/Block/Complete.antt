-- ===== src/Virtio/Block/Complete.antt =====
-- `virtio_block_req_end`: what the driver finds when a request has ended.
use mvvmm.Base.{
  ℕ, zero, suc, ◌-◌, ◌^◌, ◌≤◌, ◌<◌, ◌≡◌, refl, ap, sym, subst, ◌∙◌, List, [], ◌∷◌, ◌==◌,
  if◌then◌else◌, length, take, splice, length-splice, write_buf, write_buf-done, sub32, int_to_u64,
  done, Code, success, arith,
}
use mvvmm.Guest.{GuestMem}
use mvvmm.Virtio.Device.{QueueState, Machine}
use mvvmm.Virtio.Chain.{VirtioDesc, memcpy_to_queue}
use mvvmm.Virtio.Chain.Sizes.{write_part, total_len}
use mvvmm.Virtio.Chain.Data.{data_of}
use mvvmm.Virtio.Chain.Deliver.{memcpy_to_queue-data_of}
use mvvmm.Virtio.Queue.{queue_at, virtio_consume_desc}
use mvvmm.Virtio.Queue.Complete.{IsPending, IsReturned, virtio_consume_desc-IsReturned}
use mvvmm.Virtio.Block.{BlockRequest, blk_t_in, blk_t_out, status_byte, virtio_block_req_end}

-- The answer to a request: the data of a read and the status, or the status alone.
unfoldable pub answer : BlockRequest → Code → List ℕ
answer req ret =
    let read = splice req.buf (req.write_size - 1) (status_byte ret ∷ []) in
    if req.type == blk_t_in then read else status_byte ret ∷ []

-- A read with a buffer of `write_size` bytes, or a write.
pub data IsRequest : BlockRequest → Type 0 where
  reads :
      {req : BlockRequest}
      → req.type ≡ blk_t_in
      → 0 < req.write_size
      → req.write_size < 2 ^ 31
      → length req.buf ≡ req.write_size
      → IsRequest req
  writes : {req : BlockRequest} → req.type ≡ blk_t_out → IsRequest req

pub take-length {ℓ} : {A : Type ℓ} (xs : List A) (n : ℕ) → length xs ≡ n → take n xs ≡ xs
take-length [] zero e = refl
take-length [] (suc n) e = refl
take-length (x ∷ xs) zero e = absurd (omega arith)
take-length (x ∷ xs) (suc n) e = ap (◌∷◌ x) (take-length xs n (omega arith))

module _ {B : Type 0} (s : Machine B) (q : QueueState) (k entries queue_idx desc_idx : ℕ)
    (h : VirtioDesc) (t : List VirtioDesc)
    (pending : IsPending s queue_idx q k entries desc_idx h t) where
  -- A buffer copied into the chain from its start, and the chain given back.
  pub copy-IsReturned :
      (bytes : List ℕ) (count : ℕ)
      → length bytes ≡ count
      → 0 < count
      → count < 2 ^ 31
      → count ≤ total_len (write_part (h ∷ t))
      → (m' : GuestMem) × (s' : Machine B) × (memcpy_to_queue s.mem q desc_idx 0 bytes count
          ≡ done (success, m', bytes))
        × (virtio_consume_desc (record s { mem = m' }) queue_idx desc_idx count ≡ done s')
        × IsReturned s q desc_idx count
            (write_part (h ∷ t))
            (splice (data_of s.mem (write_part (h ∷ t))) 0 bytes)
            s'
        × (s'.dev.queue ≡ s.dev.queue)
  copy-IsReturned bytes count e some_bytes small fits =
      let ws = write_part (h ∷ t) in
      let (m', copied, there, size, kept) =
        memcpy_to_queue-data_of s.mem pending.ring.bounded q entries desc_idx h t pending.target
          bytes 0 count some_bytes (omega arith) small (omega arith) (omega arith) (omega arith)
          pending.separate in
      let (s', consumed, returned, queue) =
        virtio_consume_desc-IsReturned s m' q k entries queue_idx desc_idx count h t pending
          (record { size = size; kept = kept }) (omega arith) in
      let all : data_of m' ws ≡ splice (data_of s.mem ws) 0 bytes =
        there ∙ ap (splice (data_of s.mem ws) 0) (take-length bytes count e) in
      (
        m',
        s',
        copied,
        consumed,
        subst (λ bs. IsReturned s q desc_idx count ws bs s') all returned,
        queue,
      )

module _ (req : BlockRequest) (ret : Code) where
  read_answer :
      req.type ≡ blk_t_in
      → answer req ret ≡ splice req.buf (req.write_size - 1) (status_byte ret ∷ [])
  unfolding answer
  read_answer e = rw e

  write_answer : req.type ≡ blk_t_out → answer req ret ≡ status_byte ret ∷ []
  unfolding answer
  write_answer e = rw e

module _ {B : Type 0} (s s' : Machine B) (req : BlockRequest) (ret : Code) (q : QueueState)
    (m' : GuestMem) (at_queue : queue_at s.dev req.queue_idx ≡ done q) where
  read_ends :
      (bytes : List ℕ)
      → req.type ≡ blk_t_in
      → write_buf req.buf (int_to_u64 (sub32 req.write_size 1)) (status_byte ret ∷ []) ≡ done bytes
      → memcpy_to_queue s.mem q req.desc_idx 0 bytes req.write_size ≡ done (success, m', bytes)
      → virtio_consume_desc (record s { mem = m' }) req.queue_idx req.desc_idx req.write_size
        ≡ done s'
      → virtio_block_req_end s req ret ≡ done s'
  unfolding virtio_block_req_end
  read_ends bytes is_in filled copied consumed = rw (at_queue, is_in, filled, copied) consumed

  write_ends :
      req.type ≡ blk_t_out
      → memcpy_to_queue s.mem q req.desc_idx 0 (status_byte ret ∷ []) 1
        ≡ done (success, m', status_byte ret ∷ [])
      → virtio_consume_desc (record s { mem = m' }) req.queue_idx req.desc_idx 1 ≡ done s'
      → virtio_block_req_end s req ret ≡ done s'
  unfolding virtio_block_req_end
  write_ends is_out copied consumed = rw (at_queue, is_out, copied) consumed

module _ {B : Type 0} (s : Machine B) (req : BlockRequest) (ret : Code) (q : QueueState)
    (k entries : ℕ) (h : VirtioDesc) (t : List VirtioDesc) where
  -- `virtio_block_req_end` returns, and the chain is given back with `bytes` at its front.
  abbrev EndsWith : List ℕ → Type 0
  EndsWith bytes =
      (s' : Machine B) × (virtio_block_req_end s req ret ≡ done s')
      × IsReturned s q req.desc_idx (length bytes) (write_part (h ∷ t))
          (splice (data_of s.mem (write_part (h ∷ t))) 0 bytes) s'
      × (s'.dev.queue ≡ s.dev.queue)

  read_EndsWith :
      IsPending s req.queue_idx q k entries req.desc_idx h t
      → req.type ≡ blk_t_in
      → 0 < req.write_size
      → req.write_size < 2 ^ 31
      → length req.buf ≡ req.write_size
      → (bytes : List ℕ) → bytes ≡ splice req.buf (req.write_size - 1) (status_byte ret ∷ [])
      → length bytes ≤ total_len (write_part (h ∷ t))
      → EndsWith bytes
  read_EndsWith pending is_in some_bytes small e bytes is fits =
      let len : length bytes ≡ req.write_size =
        ap length is
        ∙ length-splice req.buf (req.write_size - 1) (status_byte ret ∷ []) (omega arith)
        ∙ e in
      let at_end : int_to_u64 (sub32 req.write_size 1) ≡ req.write_size - 1 = ground arith in
      let filled : write_buf req.buf (int_to_u64 (sub32 req.write_size 1)) (status_byte ret ∷ [])
          ≡ done bytes =
        ap (λ p. write_buf req.buf p (status_byte ret ∷ [])) at_end
        ∙ write_buf-done req.buf (req.write_size - 1) (status_byte ret ∷ []) (omega arith)
        ∙ ap done (sym is) in
      let (m', s', copied, consumed, returned, queue) =
        copy-IsReturned s q k entries req.queue_idx req.desc_idx h t pending bytes req.write_size
          len some_bytes small (omega (arith, len)) in
      (
        s',
        read_ends s s' req ret q m' pending.queue bytes is_in filled copied consumed,
        subst
            (λ n.
              IsReturned s q req.desc_idx n (write_part (h ∷ t))
                (splice (data_of s.mem (write_part (h ∷ t))) 0 bytes) s')
            (sym len) returned,
        queue,
      )

  write_EndsWith :
      IsPending s req.queue_idx q k entries req.desc_idx h t
      → req.type ≡ blk_t_out
      → 1 ≤ total_len (write_part (h ∷ t))
      → EndsWith (status_byte ret ∷ [])
  write_EndsWith pending is_out fits =
      let (m', s', copied, consumed, returned, queue) =
        copy-IsReturned s q k entries req.queue_idx req.desc_idx h t pending (status_byte ret ∷ [])
          1 refl (omega arith) (omega arith) fits in
      (s', write_ends s s' req ret q m' pending.queue is_out copied consumed, returned, queue)

  -- The end of a read or a write whose chain is still with the device (`IsPending`) and has room for
  -- the answer: the answer to a read is the data that the disk has put into the buffer, with the status
  -- as the last byte; to a write it is the status alone. `virtio_block_req_end` returns, the answer is
  -- at the front of the writable part, the next entry of the used ring names the chain and the
  -- answer's length, the driver is told unless it does not want to be, and no byte outside the
  -- chain and the used ring changes.
  pub virtio_block_req_end-IsReturned :
      IsPending s req.queue_idx q k entries req.desc_idx h t
      → IsRequest req
      → length (answer req ret) ≤ total_len (write_part (h ∷ t))
      → (s' : Machine B) × (virtio_block_req_end s req ret ≡ done s')
        × IsReturned s q req.desc_idx
            (length (answer req ret))
            (write_part (h ∷ t))
            (splice (data_of s.mem (write_part (h ∷ t))) 0 (answer req ret))
            s'
        × (s'.dev.queue ≡ s.dev.queue)
  virtio_block_req_end-IsReturned pending (reads is_in some_bytes small e) fits =
      read_EndsWith pending is_in some_bytes small e (answer req ret) (read_answer req ret is_in)
        fits
  virtio_block_req_end-IsReturned pending (writes is_out) fits =
      let is = write_answer req ret is_out in
      subst EndsWith (sym is) (
        write_EndsWith pending is_out
          (subst (λ bs. length bs ≤ total_len (write_part (h ∷ t))) is fits))
