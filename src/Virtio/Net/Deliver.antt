-- ===== src/Virtio/Net/Deliver.antt =====
-- `virtio_net_write_packet`: what the driver finds when a packet has been put into a chain.
use mvvmm.Base.{
  ℕ, ◌+◌, ◌^◌, ◌≤◌, ◌<◌, ◌≡◌, refl, ap, subst, ◌∙◌, true, false, some, List, ◌∷◌, ◌==◌, u16, u32,
  u64, slt, length, replicate, splice, Outcome, done, success, arith,
}
use mvvmm.Guest.{GuestMem}
use mvvmm.Virtio.Memory.{read16}
use mvvmm.Virtio.Device.{QueueState, get_queue, set_queue, Machine}
use mvvmm.Virtio.Chain.{VirtioDesc, get_desc_rw_size, memcpy_to_queue}
use mvvmm.Virtio.Chain.Layout.{IsChain}
use mvvmm.Virtio.Chain.Sizes.{
  read_part, write_part, all_write, total_len, chain_sizes, get_desc_rw_size-chain_sizes,
}
use mvvmm.Virtio.Chain.Data.{data_of}
use mvvmm.Virtio.Chain.Table.{Indexed}
use mvvmm.Virtio.Queue.{queue_at, avail_entry, advance_avail, virtio_consume_desc}
use mvvmm.Virtio.Queue.Complete.{IsPending, IsReturned, virtio_consume_desc-IsReturned}
use mvvmm.Virtio.Net.{header_size, put_packet, virtio_net_write_packet}
use mvvmm.Virtio.Net.Copies.{frame, two_copies}

value_or : {A : Type 0} → A → Outcome A → A
value_or a (done b) = b
value_or a _ = a

-- The queue 0 with its next available entry passed.
advance_avail-next :
    {B : Type 0} (s : Machine B) (q : QueueState)
    → queue_at s.dev 0 ≡ done q
    → (s'' : Machine B) × (advance_avail s 0 ≡ done s'')
      × (queue_at s''.dev 0 ≡ done (record q { last_avail_idx = u16 (q.last_avail_idx + 1) }))
      × ((ws : List VirtioDesc) (q0 : QueueState) (idx len : ℕ) (bytes : List ℕ) (s0 : Machine B)
          → IsReturned s0 q0 idx len ws bytes s
          → IsReturned s0 q0 idx len ws bytes s'')
unfolding advance_avail queue_at get_queue set_queue value_or
advance_avail-next s q at_queue = (
  record s {
    dev = record s.dev {
      queue = record s.dev.queue {
        queue0 = record q { last_avail_idx = u16 (q.last_avail_idx + 1) };
      };
    };
  },
  ap
      (λ g. done (record s {
        dev = record s.dev {
          queue = record s.dev.queue {
            queue0 = record g { last_avail_idx = u16 (g.last_avail_idx + 1) };
          };
        };
      }))
      (ap (value_or q) at_queue),
  refl,
  λ ws q0 idx len bytes s0 r. record {
    bytes = r.bytes;
    id = r.id;
    len = r.len;
    index = r.index;
    irqs = r.irqs;
    int_status = r.int_status;
    backend = r.backend;
    elsewhere = r.elsewhere;
  },
)

module _ {B : Type 0} (s : Machine B) (q : QueueState) (idx : ℕ) (buf : List ℕ) (buf_len : ℕ)
    (at_queue : queue_at s.dev 0 ≡ done q) where
  put_packet-done :
      (m1 m2 : GuestMem) (s' s'' : Machine B)
      → memcpy_to_queue s.mem q idx 0 (replicate header_size 0) header_size
        ≡ done (success, m1, replicate header_size 0)
      → memcpy_to_queue m1 q idx header_size buf buf_len ≡ done (success, m2, buf)
      → virtio_consume_desc (record s { mem = m2 }) 0 idx (u32 (header_size + buf_len)) ≡ done s'
      → advance_avail s' 0 ≡ done s''
      → put_packet s idx buf buf_len ≡ done s''
  unfolding put_packet
  put_packet-done m1 m2 s' s'' first second consumed advanced =
      rw (at_queue, first, second, consumed) advanced

  write_packet-put :
      (chain_fuel avail r w : ℕ)
      → (q.ready == 0) ≡ false
      → read16 s.mem (u64 (q.avail_addr + 2)) ≡ done avail
      → (q.last_avail_idx == avail) ≡ false
      → avail_entry s.mem q ≡ done idx
      → get_desc_rw_size chain_fuel s.mem q idx ≡ done (some (r, w))
      → slt w (u32 (header_size + buf_len)) ≡ false
      → virtio_net_write_packet chain_fuel s buf buf_len ≡ put_packet s idx buf buf_len
  unfolding virtio_net_write_packet
  write_packet-put chain_fuel avail r w on at_avail more at_entry sizes room =
      rw (at_queue, on, at_avail, more, at_entry, sizes, room) refl

no_wrap : (n : ℕ) → n < 2 ^ 32 → u32 n ≡ n
no_wrap n lt = omega arith

enough : (room n : ℕ) → room < 2 ^ 31 → n ≤ room → slt (u32 room) (u32 n) ≡ false
enough room n s le = ground arith

same_queue :
    {B : Type 0} (s s1 : Machine B) (q : QueueState)
    → s1.dev.queue ≡ s.dev.queue
    → queue_at s.dev 0 ≡ done q
    → queue_at s1.dev 0 ≡ done q
unfolding queue_at
same_queue s s1 q e at_queue = rw e at_queue

module _ (m : GuestMem) (bounded : m.size < 2 ^ 64) (q : QueueState) (fuel idx : ℕ) (h : VirtioDesc)
    (t : List VirtioDesc) where
  sizes_of :
      IsChain m q idx h t
      → length (h ∷ t) ≤ fuel
      → all_write (write_part (h ∷ t)) ≡ true
      → get_desc_rw_size fuel m q idx
        ≡ done (some (u32 (total_len (read_part (h ∷ t))), u32 (total_len (write_part (h ∷ t)))))
  unfolding chain_sizes
  sizes_of c rounds writable =
      get_desc_rw_size-chain_sizes m bounded q fuel idx h t c rounds ∙ rw writable refl

module _ {B : Type 0} (s : Machine B) (q : QueueState) (k entries idx : ℕ) (h : VirtioDesc)
    (t : List VirtioDesc) where
  -- A packet of `buf_len` bytes, at least one, that the tap side hands over while queue 0 is ready and its
  -- next available chain `idx` is well formed (`IsChain`, `IsPending`; its descriptors are among
  -- the `entries` of the table) with room for the packet behind the header.
  -- `virtio_net_write_packet` returns: the front of the chain's writable part is 12 zero bytes and
  -- the packet, the next entry of the used ring names the chain and that length, the driver is told
  -- unless it does not want to be, no byte outside the chain and the used ring changes, and the
  -- device has passed the chain in the available ring.
  pub virtio_net_write_packet-IsReturned :
      (chain_fuel avail : ℕ) (buf : List ℕ) (buf_len : ℕ)
      → IsPending s 0 q k entries idx h t
      → IsChain s.mem q idx h t
      → length (h ∷ t) ≤ chain_fuel
      → idx < entries
      → Indexed entries (h ∷ t)
      → all_write (write_part (h ∷ t)) ≡ true
      → total_len (write_part (h ∷ t)) < 2 ^ 31
      → (q.ready == 0) ≡ false
      → read16 s.mem (u64 (q.avail_addr + 2)) ≡ done avail
      → (q.last_avail_idx == avail) ≡ false
      → avail_entry s.mem q ≡ done idx
      → 0 < buf_len
      → buf_len ≤ length buf
      → length buf < 2 ^ 31
      → header_size + buf_len ≤ total_len (write_part (h ∷ t))
      → (s' : Machine B) × (virtio_net_write_packet chain_fuel s buf buf_len ≡ done s')
        × IsReturned s q idx
            (header_size + buf_len)
            (write_part (h ∷ t))
            (splice (data_of s.mem (write_part (h ∷ t))) 0 (frame buf buf_len))
            s'
        × (queue_at s'.dev 0 ≡ done (record q { last_avail_idx = u16 (q.last_avail_idx + 1) }))
  virtio_net_write_packet-IsReturned chain_fuel avail buf buf_len pending is_chain fuel inside i
        writable small on at_avail more at_entry some_bytes room host fits =
      let (m1, m2, first, second, there, written) =
        two_copies s q k entries idx h t pending inside i buf buf_len some_bytes room host fits in
      let (s1, consumed, returned, queue) =
        virtio_consume_desc-IsReturned s m2 q k entries 0 idx (header_size + buf_len) h t pending
          written (omega arith) in
      let (s2, advanced, at_next, same) =
        advance_avail-next s1 q (same_queue s s1 q queue pending.queue) in
      (
        s2,
        write_packet-put s q idx buf buf_len pending.queue chain_fuel avail
              (u32 (total_len (read_part (h ∷ t)))) (u32 (total_len (write_part (h ∷ t)))) on
              at_avail more at_entry
              (sizes_of s.mem pending.ring.bounded q chain_fuel idx h t is_chain fuel writable)
              (enough (total_len (write_part (h ∷ t))) (header_size + buf_len) small fits)
            ∙ put_packet-done s q idx buf buf_len pending.queue m1 m2 s1 s2 first second
                (ap (virtio_consume_desc (record s { mem = m2 }) 0 idx)
                    (no_wrap (header_size + buf_len) (omega arith))
                  ∙ consumed)
                advanced,
        same (write_part (h ∷ t)) q idx (header_size + buf_len) _ s (
            subst (λ bs. IsReturned s q idx (header_size + buf_len) (write_part (h ∷ t)) bs s1)
              there returned),
        at_next,
      )
