-- ===== src/Virtio/Mmio/Addresses.antt =====
-- The three 64-bit address registers of a queue, each written in two halves.
use mvvmm.Base.{ℕ, ◌+◌, ◌*◌, ◌/◌, ◌%◌, ◌^◌, ◌<◌, ◌≡◌, refl, ap, ◌∙◌, done, arith}
use mvvmm.Virtio.Device.{QueueState, get_queue, set_queue, Device, Machine}
use mvvmm.Virtio.Queue.{Recv}
use mvvmm.Virtio.Mmio.{
  selected, on_selected, set_low32, set_high32, read_register, write_register, virtio_mmio_read,
  virtio_mmio_write,
}
use mvvmm.Virtio.Mmio.Registers.{register_of}
use mvvmm.Virtio.Mmio.Words.{set_low32_lem, set_high32_lem}
use mvvmm.Virtio.Mmio.Valid.{IsValidQueue, IsValid}
use mvvmm.Virtio.Mmio.Reads.{selected-IsValidQueue}

pub data Area : Type 0 where
  descriptors available used : Area

-- The offsets of the two halves; the high one follows the low one.
abbrev pub low_offset : Area → ℕ
low_offset descriptors = 0x080
low_offset available = 0x090
low_offset used = 0x0a0

abbrev pub area_addr : Area → QueueState → ℕ
area_addr descriptors q = q.desc_addr
area_addr available q = q.avail_addr
area_addr used q = q.used_addr

abbrev set_area : Area → QueueState → ℕ → QueueState
set_area descriptors q a = record q { desc_addr = a }
set_area available q a = record q { avail_addr = a }
set_area used q a = record q { used_addr = a }

-- The device with another selected queue.
abbrev with_selected : Device → QueueState → Device
with_selected s q = record s { queue = set_queue s.queue s.queue_sel q }

selected-with_selected :
    (s : Device) (q q' : QueueState) → selected s ≡ done q → selected (with_selected s q') ≡ done q'
unfolding selected get_queue set_queue
selected-with_selected s q q' e = ground arith

module _ {B : Type 0} (fuel chain_fuel : ℕ) (recv : Recv B) where
  write_low :
      (a : Area) (s : Machine B) (q : QueueState) (lo : ℕ)
      → selected s.dev ≡ done q
      → virtio_mmio_write fuel chain_fuel recv s (low_offset a) lo 4
        ≡ done
            (record s { dev = with_selected s.dev (set_area a q (set_low32 (area_addr a q) lo)) })
  unfolding virtio_mmio_write write_register register_of on_selected
  write_low descriptors s q lo e = rw e
  write_low available s q lo e = rw e
  write_low used s q lo e = rw e

  write_high :
      (a : Area) (s : Machine B) (q : QueueState) (hi : ℕ)
      → selected s.dev ≡ done q
      → virtio_mmio_write fuel chain_fuel recv s (low_offset a + 4) hi 4
        ≡ done
            (record s { dev = with_selected s.dev (set_area a q (set_high32 (area_addr a q) hi)) })
  unfolding virtio_mmio_write write_register register_of on_selected
  write_high descriptors s q hi e = rw e
  write_high available s q hi e = rw e
  write_high used s q hi e = rw e

read_halves :
    (a : Area) (s : Device) (q : QueueState)
    → selected s ≡ done q
    → (virtio_mmio_read s (low_offset a) 4 ≡ done (area_addr a q % 2 ^ 32))
      × (virtio_mmio_read s (low_offset a + 4) 4 ≡ done (area_addr a q / 2 ^ 32 % 2 ^ 32))
unfolding virtio_mmio_read read_register register_of
read_halves descriptors s q e = (rw e, rw e)
read_halves available s q e = (rw e, rw e)
read_halves used s q e = (rw e, rw e)

-- The address that two writes leave.
abbrev joined : Area → QueueState → ℕ → ℕ → QueueState
joined a q lo hi =
    set_area a (set_area a q (set_low32 (area_addr a q) lo))
      (set_high32 (area_addr a (set_area a q (set_low32 (area_addr a q) lo))) hi)

area_addr-joined :
    (a : Area) (q : QueueState) (lo hi : ℕ)
    → IsValidQueue q
    → lo < 2 ^ 32
    → area_addr a (joined a q lo hi) ≡ hi * 2 ^ 32 + lo
area_addr-joined descriptors q lo hi v h =
    omega
      (arith, set_low32_lem q.desc_addr lo v.desc h, set_high32_lem (set_low32 q.desc_addr lo) hi)
area_addr-joined available q lo hi v h =
    omega (
      arith,
      set_low32_lem q.avail_addr lo v.avail h,
      set_high32_lem (set_low32 q.avail_addr lo) hi,
    )
area_addr-joined used q lo hi v h =
    omega
      (arith, set_low32_lem q.used_addr lo v.used h, set_high32_lem (set_low32 q.used_addr lo) hi)

module _ {B : Type 0} (fuel chain_fuel : ℕ) (recv : Recv B) where
  -- A driver that writes the low and then the high 32-bit half of an area's address to a valid
  -- device leaves exactly that address in the selected queue, and reads both halves back; the
  -- guest's memory and the interrupts stay.
  pub address_written :
      (a : Area) (s : Machine B) (lo hi : ℕ)
      → IsValid s.dev
      → lo < 2 ^ 32
      → hi < 2 ^ 32
      → (s' s'' : Machine B) × (q : QueueState) × (virtio_mmio_write fuel chain_fuel recv s
            (low_offset a)
            lo
            4
          ≡ done s')
        × (virtio_mmio_write fuel chain_fuel recv s' (low_offset a + 4) hi 4 ≡ done s'')
        × (selected s''.dev ≡ done q)
        × (area_addr a q ≡ hi * 2 ^ 32 + lo)
        × (virtio_mmio_read s''.dev (low_offset a) 4 ≡ done lo)
        × (virtio_mmio_read s''.dev (low_offset a + 4) 4 ≡ done hi)
        × (s''.mem ≡ s.mem)
        × (s''.irqs ≡ s.irqs)
  address_written a s lo hi v hl hh =
      let (q, e, vq) = selected-IsValidQueue s.dev v in
      let q1 = set_area a q (set_low32 (area_addr a q) lo) in
      let q2 = joined a q lo hi in
      let d1 = with_selected s.dev q1 in
      let s1 = record s { dev = d1 } in
      let e1 = selected-with_selected s.dev q q1 e in
      let e2 = selected-with_selected d1 q1 q2 e1 in
      let sum = area_addr-joined a q lo hi vq hl in
      let (low, high) = read_halves a (with_selected d1 q2) q2 e2 in
      (
        s1,
        record s1 { dev = with_selected d1 q2 },
        q2,
        write_low fuel chain_fuel recv a s q lo e,
        write_high fuel chain_fuel recv a s1 q1 hi e1,
        e2,
        sum,
        low ∙ ap done (omega (arith, sum)),
        high ∙ ap done (omega (arith, sum)),
        refl,
        refl,
      )
