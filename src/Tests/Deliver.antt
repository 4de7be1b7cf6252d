-- ===== src/Tests/Deliver.antt =====
-- Runs that put bytes into a chain and give it back.
use mvvmm.Base.{
  ℕ, ◌++◌, false, replicate, ◌+◌, ◌≤◌, ◌≡◌, inl, inr, refl, [], ◌∷◌, done, success, true, List,
  length, splice, take, arith, ◌==◌, ltb, get_or, if◌then◌else◌,
}
use mvvmm.Guest.{GuestMem, load_bytes}
use mvvmm.Virtio.Memory.{read16}
use mvvmm.Virtio.Device.{Machine}
use mvvmm.Virtio.Chain.{VirtioDesc, memcpy_to_queue, fields, has_next, is_write}
use mvvmm.Virtio.Chain.Layout.{desc_at, IsChain}
use mvvmm.Virtio.Chain.Sizes.{write_part, all_write, total_len}
use mvvmm.Virtio.Chain.Data.{data_of}
use mvvmm.Virtio.Chain.Spread.{Apart, Separate}
use mvvmm.Virtio.Chain.Deliver.{IsTarget, memcpy_to_queue-data_of}
use mvvmm.Virtio.Queue.{queue_at, avail_entry}
use mvvmm.Virtio.Queue.Used.{IsUsedRing}
use mvvmm.Virtio.Queue.Complete.{IsPending, IsReturned}
use mvvmm.Virtio.Block.{BlockRequest, request, virtio_block_req_end}
use mvvmm.Virtio.Block.Complete.{answer, writes, virtio_block_req_end-IsReturned}
use mvvmm.Tap.{no_event, read_bytes, rx_loop}
use mvvmm.Tap.Service.{IsWaiting, rx_loop-delivers}
use mvvmm.Tests.Fixture.{
  mem, queue, queue_from, device_from, machine, desc0, desc1, desc2, chain, ring, queue_at-machine,
}

abbrev rest : List VirtioDesc
rest = desc1 ∷ desc2 ∷ []

target : IsTarget mem queue 3 0 desc0 rest
unfolding write_part is_write has_next
target = record {
  in_table = chain.in_table;
  head = chain.head;
  follows = chain.follows;
  buffers = (refl, (omega arith, omega arith), tt);
  safe = ((inr (omega arith), tt), (λ more. omega arith, tt));
  short = omega arith;
}

separate : Separate (write_part (desc0 ∷ rest))
unfolding write_part is_write
separate = (tt, tt)

one_byte : total_len (write_part (desc0 ∷ rest)) ≡ 1
unfolding write_part is_write total_len
one_byte = refl

memcpy_to_queue-data_of_example :
    (m' : GuestMem) × (memcpy_to_queue mem queue 0 0 (7 ∷ 8 ∷ []) 1
      ≡ done (success, m', 7 ∷ 8 ∷ []))
    × (data_of m' (write_part (desc0 ∷ rest))
        ≡ splice (data_of mem (write_part (desc0 ∷ rest))) 0 (take 1 (7 ∷ 8 ∷ [])))
    × (m'.size ≡ mem.size)
    × ((p : ℕ) → Apart p (p + 1) (write_part (desc0 ∷ rest)) → m'.byte p ≡ mem.byte p)
memcpy_to_queue-data_of_example =
    memcpy_to_queue-data_of mem (omega arith) queue 3 0 desc0 rest target (7 ∷ 8 ∷ []) 0 1
      (omega arith) (omega arith) (omega arith) (omega (arith, one_byte)) (omega arith)
      (omega arith) separate

pending : IsPending machine 0 queue 3 3 0 desc0 rest
unfolding write_part is_write
pending = record {
  queue = queue_at-machine;
  ring = ring;
  target = target;
  separate = separate;
  off_ring = (inr (omega arith), tt);
  off_flags = (inr (omega arith), tt);
  small = omega arith;
}

abbrev write_request : BlockRequest
write_request = request 1 [] 0 0 0

status_fits : length (answer write_request success) ≤ total_len (write_part (desc0 ∷ rest))
unfolding answer
status_fits = omega (arith, one_byte)

virtio_block_req_end-IsReturned_example :
    (s' : Machine ℕ) × (virtio_block_req_end machine write_request success ≡ done s')
    × IsReturned machine queue 0
        (length (answer write_request success))
        (write_part (desc0 ∷ rest))
        (splice (data_of mem (write_part (desc0 ∷ rest))) 0 (answer write_request success))
        s'
    × (s'.dev.queue ≡ machine.dev.queue)
virtio_block_req_end-IsReturned_example =
    virtio_block_req_end-IsReturned machine write_request success queue 3 3 desc0 rest pending
      (writes refl) status_fits

-- A queue of the network device: one buffer of 64 bytes at 1024, available.
abbrev net_cell : ℕ → ℕ
net_cell p =
    if ltb p 16
    then get_or (0 ∷ 4 ∷ 0 ∷ 0 ∷ 0 ∷ 0 ∷ 0 ∷ 0 ∷ 64 ∷ 0 ∷ 0 ∷ 0 ∷ 2 ∷ 0 ∷ 0 ∷ 0 ∷ []) p 0
    else if p == 258
    then 1
    else 0

abbrev net_mem : GuestMem
net_mem = record { size = 4096; byte = net_cell }

abbrev net_machine : Machine ℕ
net_machine = record { dev = device_from 0; mem = net_mem; irqs = []; backend = 0 }

abbrev net_desc : VirtioDesc
net_desc = record { addr = 1024; len = 64; flags = 2; next = 0 }

net-IsChain : IsChain net_mem queue 0 net_desc []
unfolding has_next desc_at fields
net-IsChain = record {
  in_table = (omega arith, omega arith);
  head = refl;
  follows = tt;
  ends = refl;
}

net_ring : IsUsedRing net_mem queue 3
net_ring = record {
  num = refl;
  small = omega arith;
  aligned = refl;
  whole = omega arith;
  bounded = omega arith;
  flags_aligned = refl;
  flags_whole = omega arith;
  apart = inl (omega arith);
}

net-IsTarget : IsTarget net_mem queue 1 0 net_desc []
unfolding write_part is_write has_next
net-IsTarget = record {
  in_table = net-IsChain.in_table;
  head = net-IsChain.head;
  follows = tt;
  buffers = (refl, (omega arith, omega arith), tt);
  safe = ((inr (omega arith), tt), (λ more. omega arith, tt));
  short = omega arith;
}

net_pending : IsPending net_machine 0 queue 3 1 0 net_desc []
unfolding write_part is_write
net_pending = record {
  queue = queue_at-machine;
  ring = net_ring;
  target = net-IsTarget;
  separate = (tt, tt);
  off_ring = (inr (omega arith), tt);
  off_flags = (inr (omega arith), tt);
  small = omega arith;
}

net_writable :
    (all_write (write_part (net_desc ∷ [])) ≡ true) × (total_len (write_part (net_desc ∷ [])) ≡ 64)
unfolding write_part is_write all_write total_len
net_writable = (refl, refl)

net_avail : (read16 net_mem 258 ≡ done 1) × (avail_entry net_mem queue ≡ done 0)
unfolding read16 avail_entry load_bytes
net_avail = (refl, refl)

waiting : IsWaiting net_machine queue 1 1 3 1 0 net_desc []
waiting = record {
  pending = net_pending;
  chain = net-IsChain;
  rounds = omega arith;
  inside = omega arith;
  indexed = (λ more. omega arith, tt);
  writable = net_writable.0;
  small = omega (arith, net_writable.1);
  on = refl;
  at_avail = net_avail.0;
  more = refl;
  at_entry = net_avail.1;
}

-- A packet of two bytes, and then a timeout.
abbrev buffer : List ℕ
buffer = 0 ∷ 0 ∷ 0 ∷ 0 ∷ []

rx_loop-delivers_example :
    (s' : Machine ℕ) × (rx_loop 1
        ((false, read_bytes (5 ∷ 6 ∷ [])) ∷ (false, no_event) ∷ [])
        buffer
        net_machine
      ≡ rx_loop 1 ((false, no_event) ∷ []) (splice buffer 0 (5 ∷ 6 ∷ [])) s')
    × IsReturned net_machine queue 0 14
        (write_part (net_desc ∷ []))
        (splice (data_of net_mem (write_part (net_desc ∷ []))) 0 (replicate 12 0 ++ 5 ∷ 6 ∷ []))
        s'
    × (queue_at s'.dev 0 ≡ done (queue_from 1))
rx_loop-delivers_example =
    rx_loop-delivers 1 ((false, no_event) ∷ []) false 5 (6 ∷ []) buffer net_machine queue waiting
      (omega arith) (omega arith) (omega (arith, net_writable.1))
