-- ===== src/Tests/Sectors.antt =====
-- A request that writes a sector and one that reads it, on the same queue.
use mvvmm.Base.{
  ℕ, ◌≡◌, refl, inl, inr, List, [], ◌∷◌, ltb, leb, ◌==◌, ◌&&◌, if◌then◌else◌, get_or, done, arith,
}
use mvvmm.Guest.{GuestMem}
use mvvmm.Virtio.Device.{Machine, get_queue}
use mvvmm.Virtio.Chain.{VirtioDesc, fields, has_next, is_write}
use mvvmm.Virtio.Chain.Layout.{desc_at}
use mvvmm.Virtio.Chain.Sizes.{write_part, total_len}
use mvvmm.Virtio.Chain.Data.{data_of}
use mvvmm.Virtio.Queue.{queue_at}
use mvvmm.Virtio.Queue.Used.{IsUsedRing}
use mvvmm.Virtio.Queue.Complete.{IsPending}
use mvvmm.Virtio.Block.{blk_t_in, blk_t_out}
use mvvmm.Disk.Service.{IsRequestOf}
use mvvmm.Tests.Fixture.{queue, device_from}

-- Chain 0: 528 bytes to read at 1024 and one to write at 2048. Chain 2: 16 bytes to read at 1664 and
-- 513 to write at 4096.
abbrev table : List ℕ
table =
    0 ∷ 4 ∷ 0 ∷ 0 ∷ 0 ∷ 0 ∷ 0 ∷ 0 ∷ 16 ∷ 2 ∷ 0 ∷ 0 ∷ 1 ∷ 0 ∷ 1 ∷ 0 ∷ 0 ∷ 8 ∷ 0 ∷ 0 ∷ 0 ∷ 0 ∷ 0 ∷ 0
    ∷ 1 ∷ 0 ∷ 0 ∷ 0 ∷ 2 ∷ 0 ∷ 0 ∷ 0 ∷ 128 ∷ 6 ∷ 0 ∷ 0 ∷ 0 ∷ 0 ∷ 0 ∷ 0 ∷ 16 ∷ 0 ∷ 0 ∷ 0 ∷ 1 ∷ 0 ∷ 3
    ∷ 0 ∷ 0 ∷ 16 ∷ 0 ∷ 0 ∷ 0 ∷ 0 ∷ 0 ∷ 0 ∷ 1 ∷ 2 ∷ 0 ∷ 0 ∷ 2 ∷ 0 ∷ 0 ∷ 0 ∷ []

-- The headers: type 1 and sector 3, type 0 and sector 3.
abbrev cell : ℕ → ℕ
cell p =
    if ltb p 64
    then get_or table p 0
    else if p == 1024
    then 1
    else if p == 1032
    then 3
    else if p == 1672
    then 3
    else if leb 1040 p && ltb p 1552
    then 7
    else 0

abbrev pub mem : GuestMem
mem = record { size = 8192; byte = cell }

abbrev pub s : Machine ℕ
s = record { dev = device_from 0; mem = mem; irqs = []; backend = 0 }

abbrev pub desc0 : VirtioDesc
desc0 = record { addr = 1024; len = 528; flags = 1; next = 1 }

abbrev pub desc1 : VirtioDesc
desc1 = record { addr = 2048; len = 1; flags = 2; next = 0 }

abbrev pub desc2 : VirtioDesc
desc2 = record { addr = 1664; len = 16; flags = 1; next = 3 }

abbrev pub desc3 : VirtioDesc
desc3 = record { addr = 4096; len = 513; flags = 2; next = 0 }

queue_at-s : queue_at (device_from 0) 0 ≡ done queue
unfolding queue_at get_queue
queue_at-s = refl

ring : IsUsedRing mem queue 3
ring = record {
  num = refl;
  small = omega arith;
  aligned = refl;
  whole = omega arith;
  bounded = omega arith;
  flags_aligned = refl;
  flags_whole = omega arith;
  apart = inl (omega arith);
}

pub writes_out : IsRequestOf blk_t_out s queue 0 0 desc0 []
unfolding desc_at fields has_next is_write total_len data_of
writes_out = record {
  bounded = omega arith;
  queue = queue_at-s;
  front = record {
    in_table = (omega arith, omega arith);
    head = refl;
    follows = tt;
    buffers = (refl, (omega arith, omega arith), tt);
    short = omega arith;
  };
  small = omega arith;
  kind = refl;
}

pub reads_in : IsRequestOf blk_t_in s queue 0 2 desc2 []
unfolding desc_at fields has_next is_write total_len data_of
reads_in = record {
  bounded = omega arith;
  queue = queue_at-s;
  front = record {
    in_table = (omega arith, omega arith);
    head = refl;
    follows = tt;
    buffers = (refl, (omega arith, omega arith), tt);
    short = omega arith;
  };
  small = omega arith;
  kind = refl;
}

pub pending0 : IsPending s 0 queue 3 4 0 desc0 (desc1 ∷ [])
unfolding write_part is_write has_next desc_at fields
pending0 = record {
  queue = queue_at-s;
  ring = ring;
  target = record {
    in_table = (omega arith, omega arith);
    head = refl;
    follows = (refl, (omega arith, omega arith), refl, tt);
    buffers = (refl, (omega arith, omega arith), tt);
    safe = ((inr (omega arith), tt), (λ more. omega arith, tt));
    short = omega arith;
  };
  separate = (tt, tt);
  off_ring = (inr (omega arith), tt);
  off_flags = (inr (omega arith), tt);
  small = omega arith;
}

pub pending2 : IsPending s 0 queue 3 4 2 desc2 (desc3 ∷ [])
unfolding write_part is_write has_next desc_at fields
pending2 = record {
  queue = queue_at-s;
  ring = ring;
  target = record {
    in_table = (omega arith, omega arith);
    head = refl;
    follows = (refl, (omega arith, omega arith), refl, tt);
    buffers = (refl, (omega arith, omega arith), tt);
    safe = ((inr (omega arith), tt), (λ more. omega arith, tt));
    short = omega arith;
  };
  separate = (tt, tt);
  off_ring = (inr (omega arith), tt);
  off_flags = (inr (omega arith), tt);
  small = omega arith;
}
