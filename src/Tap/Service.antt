-- ===== src/Tap/Service.antt =====
-- Packets between the interface and the queues of the guest.
use mvvmm.Base.{
  ℕ, ◌+◌, ◌^◌, ◌≤◌, ◌<◌, ◌≡◌, refl, ap, subst, ◌∙◌, Bool, true, false, List, [], ◌∷◌, ◌++◌, ◌==◌,
  ◌⊎◌, inl, inr, Bool-cases, eq→==, is_positive, length, length-drop, length-splice, take, drop,
  replicate, splice, u16, u64, done, success, arith,
}
use mvvmm.Virtio.Device.{QueueState, Machine}
use mvvmm.Virtio.Memory.{read16}
use mvvmm.Virtio.Chain.{VirtioDesc}
use mvvmm.Virtio.Chain.Layout.{IsChain}
use mvvmm.Virtio.Chain.Locate.{Front}
use mvvmm.Virtio.Chain.Sizes.{total_len, write_part, all_write}
use mvvmm.Virtio.Chain.Data.{data_of, length-data_of}
use mvvmm.Virtio.Chain.Table.{Indexed}
use mvvmm.Virtio.Queue.{queue_at, avail_entry}
use mvvmm.Guest.{bytes_at, le_value}
use mvvmm.Virtio.Queue.Used.{IsUsedRing, used_index, slot_addr}
use mvvmm.Virtio.Queue.Complete.{IsPending, IsReturned}
use mvvmm.Virtio.Net.{
  header_size, virtio_net_recv_request, virtio_net_can_write_packet, virtio_net_write_packet,
}
use mvvmm.Virtio.Net.Transmit.{virtio_net_recv_request-sends}
use mvvmm.Virtio.Net.Deliver.{virtio_net_write_packet-IsReturned}
use mvvmm.Virtio.Net.Copies.{frame}
use mvvmm.Virtio.Block.Complete.{take-length}
use mvvmm.Tap.{Readiness, read_bytes, write_packet_to_ether, timed_read, receive, rx_loop}

sends_all :
    (sent : List (List ℕ)) (buf : List ℕ) (n : ℕ)
    → length buf ≡ n
    → 0 < n
    → n < 2 ^ 31
    → write_packet_to_ether sent buf n ≡ buf ∷ sent
unfolding write_packet_to_ether
sends_all sent buf n len pos small =
    let positive : is_positive n ≡ true = ground arith in
    rw positive (ap (λ b. b ∷ sent) (take-length buf n len))

-- A chain of the transmit queue whose readable part `d ∷ ds` has the header and `n` more bytes, at
-- least one: exactly these bytes go to the interface, as one packet behind those before; the
-- next entry of the used ring names the chain `idx` with the length 0, the used index is one more, and
-- the queues are as before.
pub virtio_net_recv_request-transmits :
    (s : Machine (List (List ℕ))) (q : QueueState) (k i idx n write_size : ℕ) (d : VirtioDesc)
    (ds : List VirtioDesc)
    → queue_at s.dev i ≡ done q
    → IsUsedRing s.mem q k
    → Front false s.mem q idx d ds
    → idx < 2 ^ 32
    → 0 < n
    → header_size + n ≡ total_len (d ∷ ds)
    → total_len (d ∷ ds) < 2 ^ 31
    → (s' : Machine (List (List ℕ))) × (virtio_net_recv_request write_packet_to_ether s i idx
          (total_len (d ∷ ds))
          write_size
        ≡ done (success, s'))
      × (s'.backend ≡ drop header_size (data_of s.mem (d ∷ ds)) ∷ s.backend)
      × (le_value (bytes_at s'.mem.byte (slot_addr s.mem q) 4) ≡ idx)
      × (le_value (bytes_at s'.mem.byte (slot_addr s.mem q + 4) 4) ≡ 0)
      × (used_index s'.mem q ≡ u16 (used_index s.mem q + 1))
      × (s'.dev.queue ≡ s.dev.queue)
virtio_net_recv_request-transmits s q k i idx n write_size d ds at_queue ring front word pos all
      small =
    let (s', sends, backend, id, written, used, queue) =
      virtio_net_recv_request-sends write_packet_to_ether s q k i idx n write_size d ds at_queue
        ring front word pos all small in
    let len : length (drop header_size (data_of s.mem (d ∷ ds))) ≡ n = omega (
      arith,
      length-drop header_size (data_of s.mem (d ∷ ds)),
      length-data_of s.mem (d ∷ ds),
      all,
    ) in
    (
      s',
      sends,
      backend
          ∙ sends_all s.backend (drop header_size (data_of s.mem (d ∷ ds))) n len pos
              (omega (arith, all, small)),
      id,
      written,
      used,
      queue,
    )

-- Queue 0 is ready, and its next available chain `idx` is well formed and writable behind its readable
-- part; its descriptors are among the `entries` of the table.
pub record IsWaiting {B : Type 0} (s : Machine B) (q : QueueState)
    (chain_fuel avail k entries idx : ℕ) (h : VirtioDesc) (t : List VirtioDesc) : Type 0 where
  pub pending : IsPending s 0 q k entries idx h t
  pub chain : IsChain s.mem q idx h t
  pub rounds : length (h ∷ t) ≤ chain_fuel
  pub inside : idx < entries
  pub indexed : Indexed entries (h ∷ t)
  pub writable : all_write (write_part (h ∷ t)) ≡ true
  pub small : total_len (write_part (h ∷ t)) < 2 ^ 31
  pub on : (q.ready == 0) ≡ false
  pub at_avail : read16 s.mem (u64 (q.avail_addr + 2)) ≡ done avail
  pub more : (q.last_avail_idx == avail) ≡ false
  pub at_entry : avail_entry s.mem q ≡ done idx

take-splice : (buf bs : List ℕ) → take (length bs) (splice buf 0 bs) ≡ bs
unfolding splice
take-splice buf [] = refl
take-splice buf (b ∷ bs) = ap (◌∷◌ b) (take_front bs (drop (length (b ∷ bs)) buf))
  where
    take_front : (xs ys : List ℕ) → take (length xs) (xs ++ ys) ≡ xs
    take_front [] ys = refl
    take_front (x ∷ xs) ys = ap (◌∷◌ x) (take_front xs ys)

module _ {B : Type 0} (chain_fuel : ℕ) (rounds : List (Bool × Readiness)) (quit : Bool) (b : ℕ)
    (bytes buf : List ℕ) (s : Machine B) (q : QueueState) where
  abbrev packet : List ℕ
  packet = b ∷ bytes

  -- The buffer of the thread with the packet at its front.
  abbrev filled : List ℕ
  filled = splice buf 0 packet

  can_write :
      (avail : ℕ)
      → queue_at s.dev 0 ≡ done q
      → (q.ready == 0) ≡ false
      → read16 s.mem (u64 (q.avail_addr + 2)) ≡ done avail
      → (q.last_avail_idx == avail) ≡ false
      → virtio_net_can_write_packet s ≡ done true
  unfolding virtio_net_can_write_packet
  can_write avail at_queue on at_avail more = rw (at_queue, on, at_avail, more) refl

  cannot_write :
      queue_at s.dev 0 ≡ done q
      → ((q.ready == 0) ≡ true) ⊎ (read16 s.mem (u64 (q.avail_addr + 2)) ≡ done q.last_avail_idx)
      → virtio_net_can_write_packet s ≡ done false
  unfolding virtio_net_can_write_packet
  cannot_write at_queue (inl off) = rw (at_queue, off) refl
  cannot_write at_queue (inr none_left) = elim (Bool-cases (q.ready == 0)) [
    | inl off ↦ rw (at_queue, off) refl
    | inr on ↦
        let same : (q.last_avail_idx == q.last_avail_idx) ≡ true = eq→== refl in
        rw (at_queue, on, none_left, same) refl
  ]

  received :
      (s' : Machine B)
      → virtio_net_can_write_packet s ≡ done true
      → virtio_net_write_packet chain_fuel s filled (length packet) ≡ done s'
      → rx_loop chain_fuel ((quit, read_bytes packet) ∷ rounds) buf s
        ≡ rx_loop chain_fuel rounds filled s'
  unfolding rx_loop receive timed_read
  received s' can wrote = rw (can, wrote) refl

  -- A packet from the interface while queue 0 is not ready or has no chain available: it is dropped,
  -- the device stays as it was, and the thread goes on.
  pub rx_loop-drops :
      queue_at s.dev 0 ≡ done q
      → ((q.ready == 0) ≡ true) ⊎ (read16 s.mem (u64 (q.avail_addr + 2)) ≡ done q.last_avail_idx)
      → rx_loop chain_fuel ((quit, read_bytes packet) ∷ rounds) buf s
        ≡ rx_loop chain_fuel rounds filled s
  unfolding rx_loop receive timed_read
  rx_loop-drops at_queue no_room = rw (cannot_write at_queue no_room) refl

  -- A packet from the interface, no longer than the buffer of the thread, while queue 0 is ready and
  -- its next available chain has room for it behind the header: the thread goes on with the rest of
  -- the rounds, and the chain is returned with 12 zero bytes and the packet at the front of its
  -- writable part; the device has passed the chain in the available ring.
  pub rx_loop-delivers :
      {avail k entries idx : ℕ} {h : VirtioDesc} {t : List VirtioDesc}
      → IsWaiting s q chain_fuel avail k entries idx h t
      → length packet ≤ length buf
      → length buf < 2 ^ 31
      → header_size + length packet ≤ total_len (write_part (h ∷ t))
      → (s' : Machine B) × (rx_loop chain_fuel ((quit, read_bytes packet) ∷ rounds) buf s
          ≡ rx_loop chain_fuel rounds filled s')
        × IsReturned s q idx
            (header_size + length packet)
            (write_part (h ∷ t))
            (splice (data_of s.mem (write_part (h ∷ t))) 0 (replicate header_size 0 ++ packet))
            s'
        × (queue_at s'.dev 0 ≡ done (record q { last_avail_idx = u16 (q.last_avail_idx + 1) }))
  unfolding frame
  rx_loop-delivers {avail = avail} {k = k} {entries = entries} {idx = idx} {h = h} {t = t} w short
        host room =
      let len : length filled ≡ length buf = length-splice buf 0 packet (omega arith) in
      let (s', wrote, returned, passed) =
        virtio_net_write_packet-IsReturned s q k entries idx h t chain_fuel avail filled
          (length packet) w.pending w.chain w.rounds w.inside w.indexed w.writable w.small w.on
          w.at_avail w.more w.at_entry (omega arith) (omega (arith, len)) (omega (arith, len))
          room in
      (
        s',
        received s' (can_write avail w.pending.queue w.on w.at_avail w.more) wrote,
        subst
            (λ bs.
              IsReturned s q idx (header_size + length packet) (write_part (h ∷ t))
                (splice (data_of s.mem (write_part (h ∷ t))) 0 (replicate header_size 0 ++ bs)) s')
            (take-splice buf packet) returned,
        passed,
      )
