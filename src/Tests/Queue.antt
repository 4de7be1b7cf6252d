-- ===== src/Tests/Queue.antt =====
-- Runs of the queue and of the block device's handler on it.
use mvvmm.Base.{
  ℕ, suc, ◌+◌, ◌≤◌, ◌<◌, ◌≡◌, ◌⊎◌, inl, inr, refl, [], ◌∷◌, List, done, done_inj, success, u16, u64,
  drop, arith, some, ◌==◌, if◌then◌else◌, bit_and, bit_or, sym, ap, ◌∙◌, false,
}
use mvvmm.Guest.{GuestMem, bytes_at, le_value, load_bytes}
use mvvmm.Virtio.Device.{Machine, get_queue, set_queue}
use mvvmm.Virtio.Memory.{read16}
use mvvmm.Virtio.Chain.{is_write, fields, has_next}
use mvvmm.Virtio.Chain.Sizes.{
  total_len, chain_sizes, get_desc_rw_size-chain_sizes, read_part, write_part, all_write,
}
use mvvmm.Virtio.Chain.Layout.{desc_at}
use mvvmm.Virtio.Chain.Locate.{Front}
use mvvmm.Virtio.Chain.Data.{data_of}
use mvvmm.Virtio.Queue.{
  queue_at, avail_entry, serve_entry, advance_avail, queue_notify, virtio_consume_desc,
}
use mvvmm.Virtio.Queue.Used.{used_index, slot_addr, driver_flags, raised, virtio_consume_desc_lem}
use mvvmm.Virtio.Queue.Drain.{Serves, drained, queue_notify-drained}
use mvvmm.Virtio.Block.{BlockDevice, virtio_block_recv_request}
use mvvmm.Virtio.Block.Request.{
  virtio_block_recv_request-writes, virtio_block_recv_request-unsupported,
}
use mvvmm.Virtio.Net.{virtio_net_recv_request}
use mvvmm.Tap.{write_packet_to_ether}
use mvvmm.Tap.Service.{virtio_net_recv_request-transmits}
use mvvmm.Tests.Fixture.{
  mem, queue, machine, machine_from, desc0, desc1, desc2, chain, front, ring, queue_at-machine,
}

virtio_consume_desc_lem_example :
    (s' : Machine ℕ) × (virtio_consume_desc machine 0 5 17 ≡ done s')
    × (le_value (bytes_at s'.mem.byte (slot_addr mem queue) 4) ≡ 5)
    × (le_value (bytes_at s'.mem.byte (slot_addr mem queue + 4) 4) ≡ 17)
    × (used_index s'.mem queue ≡ u16 (used_index mem queue + 1))
    × ((p : ℕ)
        → (p < queue.used_addr + 2) ⊎ (queue.used_addr + 4 ≤ p)
        → (p < slot_addr mem queue) ⊎ (slot_addr mem queue + 8 ≤ p)
        → s'.mem.byte p ≡ mem.byte p)
    × (s'.irqs ≡ (if bit_and (driver_flags mem queue) 1 == 0 then raised (some 7) [] else []))
    × (s'.dev.int_status ≡ (if bit_and (driver_flags mem queue) 1 == 0 then bit_or 0 1 else 0))
    × (s'.dev.queue ≡ machine.dev.queue)
    × (s'.backend ≡ 0)
virtio_consume_desc_lem_example =
    virtio_consume_desc_lem machine queue 3 0 5 17 ring queue_at-machine (omega arith) (omega arith)

-- A disk that takes every request and counts them.
abbrev pub disk : BlockDevice ℕ
disk = record {
  read_async = λ b sector count req. (success, suc b);
  write_async = λ b sector buf count req. (success, suc b);
}

writes_taken :
    virtio_block_recv_request disk machine 0 0 (total_len (desc0 ∷ desc1 ∷ [])) 1
    ≡ done (success, record machine { backend = 1 })
unfolding total_len data_of
writes_taken =
    virtio_block_recv_request-writes disk machine queue 0 0 desc0 (desc1 ∷ []) 16 1 1 (omega arith)
      queue_at-machine front (omega arith) refl (omega arith) refl (omega arith) (omega arith) refl

-- The state before and after the request.
abbrev Round : Machine ℕ → Type 0
Round s = (s ≡ machine) ⊎ (s ≡ machine_from 1 1)

avail_entry-machine : avail_entry mem queue ≡ done 0
unfolding avail_entry read16 load_bytes
avail_entry-machine = refl

serve_entry-machine :
    serve_entry 3 (virtio_block_recv_request disk) 0 machine queue
    ≡ done (success, record machine { backend = 1 })
unfolding serve_entry chain_sizes read_part write_part all_write is_write total_len
serve_entry-machine =
    rw
      (
        avail_entry-machine,
        get_desc_rw_size-chain_sizes mem (omega arith) queue 3 0 desc0 (desc1 ∷ desc2 ∷ []) chain
            (omega arith),
      )
      writes_taken

pub avail_index : read16 mem (u64 (queue.avail_addr + 2)) ≡ done 1
unfolding read16 load_bytes
avail_index = refl

serves-machine : Serves 3 (virtio_block_recv_request disk) 0 1 Round
unfolding advance_avail queue_at get_queue set_queue
serves-machine = record {
  serve = λ s q is e apart. elim is [
    | inl start ↦
        let same : queue ≡ q = done_inj (sym queue_at-machine ∙ rw start at e) in
        (
          record machine { backend = 1 },
          machine_from 1 1,
          rw (start, ← same) serve_entry-machine,
          rw start refl,
          refl,
          inr refl,
        )
    | inr end ↦ absurd (apart (ap (λ r. r.last_avail_idx) (done_inj (sym (rw end at e)))))
  ];
}

queue_notify-drained_example :
    (s' : Machine ℕ) × (queue_notify 3 (virtio_block_recv_request disk) 0 2 machine ≡ done s')
    × Round s'
    × (queue_at s'.dev 0 ≡ done (drained queue 1))
queue_notify-drained_example =
    queue_notify-drained 3 (virtio_block_recv_request disk) 0 1 Round 2 machine queue serves-machine
      (inl refl) queue_at-machine refl avail_index (omega arith) (omega arith) (omega arith)

-- The same chain as a packet: 12 bytes of header, and 20 more.
abbrev pub count_bytes : ℕ → List ℕ → ℕ → ℕ
count_bytes b buf len = b + len

-- With the interface behind the device, and nothing sent yet.
abbrev tap_machine : Machine (List (List ℕ))
tap_machine = record { dev = machine.dev; mem = mem; irqs = []; backend = [] }

virtio_net_recv_request-transmits_example :
    (s' : Machine (List (List ℕ))) × (virtio_net_recv_request write_packet_to_ether tap_machine 0 0
        (total_len (desc0 ∷ desc1 ∷ []))
        0
      ≡ done (success, s'))
    × (s'.backend ≡ drop 12 (data_of mem (desc0 ∷ desc1 ∷ [])) ∷ [])
    × (le_value (bytes_at s'.mem.byte (slot_addr mem queue) 4) ≡ 0)
    × (le_value (bytes_at s'.mem.byte (slot_addr mem queue + 4) 4) ≡ 0)
    × (used_index s'.mem queue ≡ u16 (used_index mem queue + 1))
    × (s'.dev.queue ≡ machine.dev.queue)
unfolding total_len
virtio_net_recv_request-transmits_example =
    virtio_net_recv_request-transmits tap_machine queue 3 0 0 20 0 desc0 (desc1 ∷ [])
      queue_at-machine ring front (omega arith) (omega arith) (omega arith) (omega arith)

-- The request with type 4, VIRTIO_BLK_T_FLUSH.
abbrev flush_mem : GuestMem
flush_mem = record mem { byte = λ p. if p == 1024 then 4 else mem.byte p }

abbrev flush_machine : Machine ℕ
flush_machine = record machine { mem = flush_mem }

flush-Front : Front false flush_mem queue 0 desc0 (desc1 ∷ [])
unfolding desc_at fields has_next is_write
flush-Front = record {
  in_table = (omega arith, omega arith);
  head = refl;
  follows = (refl, (omega arith, omega arith), refl, tt);
  buffers = (refl, (omega arith, omega arith), (refl, (omega arith, omega arith), tt));
  short = omega arith;
}

virtio_block_recv_request-unsupported_example :
    virtio_block_recv_request disk flush_machine 0 0 32 1 ≡ done (success, flush_machine)
unfolding total_len data_of
virtio_block_recv_request-unsupported_example =
    virtio_block_recv_request-unsupported disk flush_machine queue 0 0 desc0 (desc1 ∷ []) 32 1
      (omega arith) queue_at-machine flush-Front (omega arith) (omega arith) (omega arith)
      (omega arith)
