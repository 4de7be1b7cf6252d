-- ===== src/Virtio/Net/Copies.antt =====
-- The two copies of `put_packet`: the header and the packet.
use mvvmm.Base.{
  ℕ, ◌+◌, ◌^◌, ◌≤◌, ◌<◌, ◌≡◌, ap, ◌∙◌, List, ◌∷◌, ◌++◌, length, take, replicate, splice,
  splice-splice, done, success, arith,
}
use mvvmm.Guest.{GuestMem}
use mvvmm.Virtio.Device.{QueueState, Machine}
use mvvmm.Virtio.Chain.{VirtioDesc, memcpy_to_queue}
use mvvmm.Virtio.Chain.Sizes.{write_part, total_len}
use mvvmm.Virtio.Chain.Data.{data_of}
use mvvmm.Virtio.Chain.Table.{Indexed}
use mvvmm.Virtio.Chain.Deliver.{memcpy_to_queue-data_of}
use mvvmm.Virtio.Queue.Complete.{IsPending, IsWritten}
use mvvmm.Virtio.Queue.Kept.{IsTarget-kept}
use mvvmm.Virtio.Net.{header_size}

-- The header of zeros and the packet.
unfoldable pub frame : List ℕ → ℕ → List ℕ
frame buf buf_len = replicate header_size 0 ++ take buf_len buf

IsWritten-trans :
    {m1 m2 m3 : GuestMem} {ws : List VirtioDesc}
    → IsWritten m1 m2 ws
    → IsWritten m2 m3 ws
    → IsWritten m1 m3 ws
IsWritten-trans a b = record {
  size = b.size ∙ a.size;
  kept = λ p apart. b.kept p apart ∙ a.kept p apart;
}

module _ {B : Type 0} (s : Machine B) (q : QueueState) (k entries idx : ℕ) (h : VirtioDesc)
    (t : List VirtioDesc) (pending : IsPending s 0 q k entries idx h t) (inside : idx < entries)
    (i : Indexed entries (h ∷ t)) where
  -- The two copies: the header, and the packet behind it.
  pub two_copies :
      (buf : List ℕ) (buf_len : ℕ)
      → 0 < buf_len
      → buf_len ≤ length buf
      → length buf < 2 ^ 31
      → header_size + buf_len ≤ total_len (write_part (h ∷ t))
      → (m1 : GuestMem) × (m2 : GuestMem) × (memcpy_to_queue s.mem q idx 0
            (replicate header_size 0)
            header_size
          ≡ done (success, m1, replicate header_size 0))
        × (memcpy_to_queue m1 q idx header_size buf buf_len ≡ done (success, m2, buf))
        × (data_of m2 (write_part (h ∷ t))
            ≡ splice (data_of s.mem (write_part (h ∷ t))) 0 (frame buf buf_len))
        × IsWritten s.mem m2 (write_part (h ∷ t))
  unfolding frame
  two_copies buf buf_len some_bytes room host fits =
      let header : List ℕ = replicate header_size 0 in
      let (m1, first, there1, size1, kept1) =
        memcpy_to_queue-data_of s.mem pending.ring.bounded q entries idx h t pending.target header 0
          header_size (omega arith) (omega arith) (omega arith) (omega arith) (omega arith)
          (omega arith) pending.separate in
      let w1 : IsWritten s.mem m1 (write_part (h ∷ t)) = record { size = size1; kept = kept1 } in
      let target1 =
        IsTarget-kept s.mem m1 (write_part (h ∷ t)) q entries w1 pending.target.safe.0 idx h t
          inside i pending.target in
      let (m2, second, there2, size2, kept2) =
        memcpy_to_queue-data_of m1 (omega (arith, size1, pending.ring.bounded)) q entries idx h t
          target1 buf header_size buf_len some_bytes (omega arith) (omega arith) fits room
          (omega arith) pending.separate in
      (
        m1,
        m2,
        first,
        second,
        there2
            ∙ ap (λ bs. splice bs header_size (take buf_len buf)) there1
            ∙ splice-splice (data_of s.mem (write_part (h ∷ t))) 0 header (take buf_len buf),
        IsWritten-trans w1 (record { size = size2; kept = kept2 }),
      )
