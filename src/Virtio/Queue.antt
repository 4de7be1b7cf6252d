-- ===== src/Virtio/Queue.antt =====
-- The used ring and the available ring (virtio.c): `virtio_consume_desc` and `queue_notify`.
pub mod Used
pub mod Drain
pub mod Complete
pub mod Kept
use mvvmm.Base.{
  ℕ, zero, suc, ◌+◌, ◌*◌, none, some, ◌∷◌, ◌==◌, if◌then◌else◌, u16, u32, u64, sub32, bit_and,
  bit_or, Outcome, done, crash, out_of_fuel, ◌>>=◌, Code, success, failure,
}
use mvvmm.Guest.{GuestMem}
use mvvmm.Virtio.Memory.{read16, write16, write32}
use mvvmm.Virtio.Device.{QueueState, get_queue, set_queue, Device, signal_irqfd, Machine}
use mvvmm.Virtio.Chain.{get_desc_rw_size}

-- `&s->queue[queue_idx]`, read.
unfoldable pub queue_at : Device → ℕ → Outcome QueueState
queue_at dev i = elim (get_queue dev.queue i) [ none ↦ crash | some q ↦ done q ]

-- The entry of the used ring that the index stands for.
unfoldable pub used_entry_addr : QueueState → ℕ → ℕ
used_entry_addr q index = u64 (q.used_addr + 4 + u32 (bit_and index (sub32 q.num 1) * 8))

-- The head of the chain that `last_avail_idx` stands for.
unfoldable pub avail_entry : GuestMem → QueueState → Outcome ℕ
avail_entry m q =
    read16 m (u64 (q.avail_addr + 4 + u32 (bit_and q.last_avail_idx (sub32 q.num 1) * 2)))

-- `virtio_device_recv_fn`: the queue, the descriptor, and the two sizes of its chain.
abbrev pub Recv : Type 0 → Type 0
Recv B = Machine B → ℕ → ℕ → ℕ → ℕ → Outcome (Code × Machine B)

module _ {B : Type 0} where
  -- `trigger_irqfd`: nothing is written to the file descriptor -1.
  unfoldable pub trigger_irqfd : Machine B → Machine B
  trigger_irqfd s = elim s.dev.irqfd [
    | none ↦ s
    | some fd ↦ record s { irqs = signal_irqfd fd ∷ s.irqs }
  ]

  -- The end of `virtio_consume_desc`: the interrupt, unless the driver suppresses it.
  unfoldable pub raise_used : ℕ → Machine B → Machine B
  unfolding trigger_irqfd
  raise_used flags s =
      if bit_and flags 1 == 0
      then trigger_irqfd
          (record s { dev = record s.dev { int_status = bit_or s.dev.int_status 1 } })
      else s

  unfoldable pub virtio_consume_desc : Machine B → ℕ → ℕ → ℕ → Outcome (Machine B)
  virtio_consume_desc s queue_idx desc_idx desc_len = do
    q ← queue_at s.dev queue_idx
    let index_addr = u64 (q.used_addr + 2)
    index ← read16 s.mem index_addr
    let ring_addr = used_entry_addr q index
    m1 ← write32 s.mem ring_addr desc_idx
    m2 ← write32 m1 (u64 (ring_addr + 4)) desc_len
    m3 ← write16 m2 index_addr (u16 (index + 1))
    flags ← read16 m3 q.avail_addr
    done (raise_used flags (record s { mem = m3 }))

  -- `qs->last_avail_idx++`
  unfoldable pub advance_avail : Machine B → ℕ → Outcome (Machine B)
  unfolding queue_at
  advance_avail s queue_idx = do
    q ← queue_at s.dev queue_idx
    let q' = record q { last_avail_idx = u16 (q.last_avail_idx + 1) }
    done (record s { dev = record s.dev { queue = set_queue s.dev.queue queue_idx q' } })

  module _ (chain_fuel : ℕ) (recv : Recv B) (queue_idx : ℕ) where
    -- One request: served, or passed over where its chain is malformed.
    unfoldable pub serve_entry : Machine B → QueueState → Outcome (Code × Machine B)
    serve_entry s q = do
      desc_idx ← avail_entry s.mem q
      sizes ← get_desc_rw_size chain_fuel s.mem q desc_idx
      elim sizes [
        | none ↦ done (success, s)
        | some (read_size, write_size) ↦ recv s queue_idx desc_idx read_size write_size
      ]

    -- The loop of `queue_notify`, with a round of fuel for each request.
    unfoldable pub notify_loop : ℕ → ℕ → Machine B → Outcome (Machine B)
    notify_loop zero avail_idx s = out_of_fuel
    notify_loop (suc fuel) avail_idx s = do
      q ← queue_at s.dev queue_idx
      if q.last_avail_idx == avail_idx then done s else do
        (code, s') ← serve_entry s q
        elim code [
          | failure ↦ done s'
          | success ↦ advance_avail s' queue_idx >>= λ s''. notify_loop fuel avail_idx s''
        ]

    unfoldable pub queue_notify : ℕ → Machine B → Outcome (Machine B)
    queue_notify fuel s = do
      q ← queue_at s.dev queue_idx
      if q.manual_recv
          then done s
          else do avail_idx ← read16 s.mem (u64 (q.avail_addr + 2)); notify_loop fuel avail_idx s
