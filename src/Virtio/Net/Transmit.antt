-- ===== src/Virtio/Net/Transmit.antt =====
-- `virtio_net_recv_request`: a packet that the guest sends.
use mvvmm.Base.{
  ℕ, ◌+◌, ◌^◌, ◌<◌, ◌≡◌, refl, false, List, ◌∷◌, drop, u16, sub32, done, success, arith,
}
use mvvmm.Virtio.Device.{QueueState, Machine}
use mvvmm.Virtio.Chain.{VirtioDesc}
use mvvmm.Virtio.Chain.Sizes.{total_len}
use mvvmm.Virtio.Chain.Data.{data_of}
use mvvmm.Virtio.Chain.Locate.{Front}
use mvvmm.Virtio.Chain.Rest.{read-header, read-rest}
use mvvmm.Virtio.Queue.{queue_at}
use mvvmm.Guest.{bytes_at, le_value}
use mvvmm.Virtio.Queue.Used.{IsUsedRing, used_index, slot_addr, virtio_consume_desc_lem}
use mvvmm.Virtio.Block.Request.{zeroed-small}
use mvvmm.Virtio.Net.{header_size, virtio_net_recv_request}

-- Where the readable part of a request's chain holds a header and `n` more bytes, `n` at least 1,
-- and the used ring is whole, the handler returns with success: exactly the bytes behind the
-- header, with their number, have been handed to `write_packet`, the next entry of the used ring
-- names the chain and the length 0, the used index is one more, the queues are as before.
pub virtio_net_recv_request-sends :
    {B : Type 0} (write_packet : B → List ℕ → ℕ → B) (s : Machine B) (q : QueueState)
    (k i idx n write_size : ℕ) (d : VirtioDesc) (ds : List VirtioDesc)
    → queue_at s.dev i ≡ done q
    → IsUsedRing s.mem q k
    → Front false s.mem q idx d ds
    → idx < 2 ^ 32
    → 0 < n
    → header_size + n ≡ total_len (d ∷ ds)
    → total_len (d ∷ ds) < 2 ^ 31
    → (s' : Machine B) × (virtio_net_recv_request write_packet s i idx
          (total_len (d ∷ ds))
          write_size
        ≡ done (success, s'))
      × (s'.backend ≡ write_packet s.backend (drop header_size (data_of s.mem (d ∷ ds))) n)
      × (le_value (bytes_at s'.mem.byte (slot_addr s.mem q) 4) ≡ idx)
      × (le_value (bytes_at s'.mem.byte (slot_addr s.mem q + 4) 4) ≡ 0)
      × (used_index s'.mem q ≡ u16 (used_index s.mem q + 1))
      × (s'.dev.queue ≡ s.dev.queue)
unfolding virtio_net_recv_request
virtio_net_recv_request-sends write_packet s q k i idx n write_size d ds e r front hidx pos all
      small =
    let m = s.mem in
    let sent = record s {
      backend = write_packet s.backend (drop header_size (data_of m (d ∷ ds))) n;
    } in
    let (s', consumed, id, written, index, _, _, _, queue, backend) =
      virtio_consume_desc_lem sent q k i idx 0 r e hidx (omega arith) in
    let len : sub32 (total_len (d ∷ ds)) header_size ≡ n = omega arith in
    (
      s',
      rw
          (
            e,
            read-header m r.bounded q idx d ds front header_size (omega arith) (omega arith) small,
            len,
            zeroed-small n (omega arith),
            read-rest m r.bounded q idx d ds front header_size n pos all small,
            consumed,
          )
          refl,
      backend,
      id,
      written,
      index,
      queue,
    )
