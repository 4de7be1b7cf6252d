-- ===== src/Virtio/Mmio/Fields.antt =====
-- Each part of the device that a register changes keeps it valid.
use mvvmm.Base.{
  ℕ, ◌+◌, ◌-◌, ◌^◌, ◌<◌, ◌≡◌, ltb, leb, ◌==◌, sub32, write_buf, length-splice, bit_and, done,
  Ensures, Ensures-if, arith, length, List, Bool-cases, inl, inr,
}
use mvvmm.Base.Bits.{power_of_two, bit_and-one}
use mvvmm.Virtio.Device.{QueueState, get_queue, set_queue, Device, virtio_reset, Machine}
use mvvmm.Virtio.Queue.{advance_avail}
use mvvmm.Virtio.Config.{put_config, virtio_config_write}
use mvvmm.Virtio.Mmio.{on_selected, set_low32, set_high32, write_status}
use mvvmm.Virtio.Mmio.Words.{set_low32_lem, set_high32_lem}
use mvvmm.Virtio.Mmio.Valid.{IsValidQueue, IsValid}

-- A write of the selected queue happens, and keeps the device valid if it keeps the queue valid.
pub on_selected-IsValid :
    (f : QueueState → QueueState) (s : Device)
    → IsValid s
    → ((q : QueueState) → IsValidQueue q → IsValidQueue (f q))
    → (s' : Device) × (on_selected f s ≡ done s') × IsValid s'
unfolding on_selected get_queue set_queue
on_selected-IsValid f s v keep = elim (Bool-cases (s.queue_sel == 0)) [
  | inl e ↦ (
    record s { queue = record s.queue { queue0 = f s.queue.queue0 } },
    ground arith,
    ground (arith, keep s.queue.queue0 v.queue0),
  )
  | inr e ↦ (
    record s { queue = record s.queue { queue1 = f s.queue.queue1 } },
    ground arith,
    ground (arith, keep s.queue.queue1 v.queue1),
  )
]

pub IsValidQueue-low :
    (q : QueueState) (val : ℕ)
    → val < 2 ^ 32
    → IsValidQueue q
    → IsValidQueue (record q { desc_addr = set_low32 q.desc_addr val })
      × IsValidQueue (record q { avail_addr = set_low32 q.avail_addr val })
      × IsValidQueue (record q { used_addr = set_low32 q.used_addr val })
IsValidQueue-low q val h v = ground (
  arith,
  set_low32_lem q.desc_addr val v.desc h,
  set_low32_lem q.avail_addr val v.avail h,
  set_low32_lem q.used_addr val v.used h,
)

pub IsValidQueue-high :
    (q : QueueState) (val : ℕ)
    → val < 2 ^ 32
    → IsValidQueue q
    → IsValidQueue (record q { desc_addr = set_high32 q.desc_addr val })
      × IsValidQueue (record q { avail_addr = set_high32 q.avail_addr val })
      × IsValidQueue (record q { used_addr = set_high32 q.used_addr val })
IsValidQueue-high q val h v = ground (
  arith,
  set_high32_lem q.desc_addr val,
  set_high32_lem q.avail_addr val,
  set_high32_lem q.used_addr val,
)

pub IsValidQueue-ready :
    (q : QueueState) (val : ℕ) → IsValidQueue q → IsValidQueue (record q { ready = bit_and val 1 })
IsValidQueue-ready q val v = ground (arith, bit_and-one val)

-- The guard of the queue size lets the powers of two through, and nothing else.
pub IsValidQueue-num :
    (q : QueueState) (val : ℕ)
    → val < 2 ^ 32
    → 0 < val
    → bit_and val (sub32 val 1) ≡ 0
    → IsValidQueue q
    → IsValidQueue (record q { num = val })
IsValidQueue-num q val h pos e v =
    let minus : sub32 val 1 ≡ val - 1 = omega arith in
    let power = power_of_two val pos (rw minus at e) in
    record {
      power = power;
      num = h;
      ready = v.ready;
      avail_idx = v.avail_idx;
      desc = v.desc;
      avail = v.avail;
      used = v.used;
    }

pub reset-IsValid : (s : Device) → IsValid s → IsValid (virtio_reset s)
unfolding virtio_reset
reset-IsValid s v = ground arith

pub status-IsValid :
    {B : Type 0} (s : Machine B) (val : ℕ)
    → val < 2 ^ 32
    → IsValid s.dev
    → IsValid (write_status s val).dev
unfolding write_status
status-IsValid s val h v = elim (Bool-cases (val == 0)) [
  | inl e ↦ rw e (reset-IsValid (record s.dev { status = val; int_status = 0 }) (ground arith))
  | inr e ↦ rw e (ground arith)
]

pub advance_avail-IsValid :
    {B : Type 0} (s s' : Machine B) (i : ℕ)
    → IsValid s.dev
    → advance_avail s i ≡ done s'
    → IsValid s'.dev
unfolding advance_avail get_queue set_queue
advance_avail-IsValid s s' i v e = ground arith

pub put_config-IsValid :
    (s : Device) (offset : ℕ) (bytes : List ℕ)
    → IsValid s
    → Ensures IsValid (put_config s offset bytes)
unfolding put_config write_buf
put_config-IsValid s offset bytes v =
    elim (Bool-cases (leb (offset + length bytes) (length s.config_space))) [
      | inl fits ↦ rw fits (ground (arith, length-splice s.config_space offset bytes))
      | inr out ↦ rw out tt
    ]

pub config_write-IsValid :
    (s : Device) (offset val size : ℕ)
    → IsValid s
    → Ensures IsValid (virtio_config_write s offset val size)
unfolding virtio_config_write
config_write-IsValid s offset val size v =
    let put = λ (bytes : List ℕ). put_config-IsValid s offset bytes v in
    Ensures-if _ (size == 1) _ _ (Ensures-if _ (ltb offset _) _ (done s) (put _) v) (
      Ensures-if _ (size == 2) _ _ (Ensures-if _ (ltb offset _) _ (done s) (put _) v)
        (Ensures-if _ (size == 4) _ (done s) (Ensures-if _ (ltb offset _) _ (done s) (put _) v) v))
