-- ===== src/Tests/Fixture.antt =====
-- A guest's memory with one queue: a block request of three descriptors, 20 and 12 bytes to read and
-- one to write, which the driver has made available.
use mvvmm.Base.{
  ℕ, ◌-◌, ◌≡◌, refl, inl, false, some, ◌==◌, List, [], ◌∷◌, ◌&&◌, ltb, leb, if◌then◌else◌, get_or,
  done, arith, replicate,
}
use mvvmm.Guest.{GuestMem}
use mvvmm.Virtio.Device.{QueueState, Device, Machine, get_queue}
use mvvmm.Virtio.Chain.{VirtioDesc, fields, has_next, is_write}
use mvvmm.Virtio.Chain.Layout.{desc_at, IsChain}
use mvvmm.Virtio.Chain.Locate.{Front}
use mvvmm.Virtio.Queue.{queue_at}
use mvvmm.Virtio.Queue.Used.{IsUsedRing}

-- The descriptor table at 0.
abbrev pub table : List ℕ
table =
    0 ∷ 4 ∷ 0 ∷ 0 ∷ 0 ∷ 0 ∷ 0 ∷ 0 ∷ 20 ∷ 0 ∷ 0 ∷ 0 ∷ 1 ∷ 0 ∷ 1 ∷ 0 ∷ 0 ∷ 8 ∷ 0 ∷ 0 ∷ 0 ∷ 0 ∷ 0 ∷ 0
    ∷ 12 ∷ 0 ∷ 0 ∷ 0 ∷ 1 ∷ 0 ∷ 2 ∷ 0 ∷ 0 ∷ 12 ∷ 0 ∷ 0 ∷ 0 ∷ 0 ∷ 0 ∷ 0 ∷ 1 ∷ 0 ∷ 0 ∷ 0 ∷ 2 ∷ 0 ∷ 0
    ∷ 0 ∷ []

-- The first buffer, at 1024: a header (VIRTIO_BLK_T_OUT, sector 5) and 4 bytes.
abbrev pub buffer : List ℕ
buffer = 1 ∷ 0 ∷ 0 ∷ 0 ∷ 0 ∷ 0 ∷ 0 ∷ 0 ∷ 5 ∷ 0 ∷ 0 ∷ 0 ∷ 0 ∷ 0 ∷ 0 ∷ 0 ∷ 9 ∷ 8 ∷ 7 ∷ 6 ∷ []

abbrev pub cell : ℕ → ℕ
cell p =
    if ltb p 48
    then get_or table p 0
    else if leb 1024 p && ltb p 1044
    then get_or buffer (p - 1024) 0
    else if p == 258
    then 1
    else 0

abbrev pub mem : GuestMem
mem = record { size = 4096; byte = cell }

-- The queue: 8 entries, the available ring at 256, the used ring at 512.
abbrev pub queue_from : ℕ → QueueState
queue_from last = record {
  ready = 1;
  num = 8;
  last_avail_idx = last;
  desc_addr = 0;
  avail_addr = 256;
  used_addr = 512;
  manual_recv = false;
}

abbrev pub queue : QueueState
queue = queue_from 0

abbrev pub device_from : ℕ → Device
device_from last = record {
  int_status = 0;
  status = 4;
  device_features_sel = 0;
  queue_sel = 0;
  queue = record { queue0 = queue_from last; queue1 = queue_from 0 };
  device_id = 2;
  vendor_id = 0xffff;
  device_features = 0;
  config_space_size = 8;
  config_space = replicate 256 0;
  max_queue_num = 128;
  irqfd = some 7;
}

abbrev pub machine_from : ℕ → ℕ → Machine ℕ
machine_from last b = record { dev = device_from last; mem = mem; irqs = []; backend = b }

abbrev pub machine : Machine ℕ
machine = machine_from 0 0

abbrev pub desc0 : VirtioDesc
desc0 = record { addr = 1024; len = 20; flags = 1; next = 1 }

abbrev pub desc1 : VirtioDesc
desc1 = record { addr = 2048; len = 12; flags = 1; next = 2 }

abbrev pub desc2 : VirtioDesc
desc2 = record { addr = 3072; len = 1; flags = 2; next = 0 }

pub desc_at-table :
    (desc_at mem queue 0 ≡ desc0) × (desc_at mem queue 1 ≡ desc1) × (desc_at mem queue 2 ≡ desc2)
unfolding desc_at fields
desc_at-table = (refl, refl, refl)

pub queue_at-machine : queue_at (device_from 0) 0 ≡ done queue
unfolding queue_at get_queue
queue_at-machine = refl

pub chain : IsChain mem queue 0 desc0 (desc1 ∷ desc2 ∷ [])
unfolding has_next
chain = record {
  in_table = (omega arith, omega arith);
  head = desc_at-table.0;
  follows = (
    refl,
    (omega arith, omega arith),
    desc_at-table.1,
    (refl, (omega arith, omega arith), desc_at-table.2, tt),
  );
  ends = refl;
}

pub front : Front false mem queue 0 desc0 (desc1 ∷ [])
unfolding has_next is_write
front = record {
  in_table = (omega arith, omega arith);
  head = desc_at-table.0;
  follows = (refl, (omega arith, omega arith), desc_at-table.1, tt);
  buffers = (refl, (omega arith, omega arith), (refl, (omega arith, omega arith), tt));
  short = omega arith;
}

pub ring : IsUsedRing mem queue 3
ring = record {
  num = refl;
  small = omega arith;
  aligned = refl;
  whole = omega arith;
  bounded = omega arith;
  flags_aligned = refl;
  flags_whole = omega arith;
  apart = inl (omega arith);
}
