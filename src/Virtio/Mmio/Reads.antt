-- ===== src/Virtio/Mmio/Reads.antt =====
-- What a read of a register gives.
use mvvmm.Base.{
  ℕ, ◌+◌, ◌-◌, ◌≤◌, ◌<◌, ◌≡◌, ◌⊎◌, inl, inr, refl, false, List, ltb, leb, ◌==◌, if◌then◌else◌,
  length, Outcome, done, aborted, ◌>>=◌, read_buf, read_buf-done, take, drop, arith, Bool-cases,
  ne→==,
}
use mvvmm.Virtio.Device.{QueueState, get_queue, Device}
use mvvmm.Virtio.Config.{virtio_config_read}
use mvvmm.Virtio.Mmio.{selected, read_register, virtio_mmio_read}
use mvvmm.Virtio.Mmio.Registers.{
  Register, register_of, queue_num, queue_ready, queue_desc_low, queue_desc_high, queue_avail_low,
  queue_avail_high, queue_used_low, queue_used_high,
}
use mvvmm.Virtio.Mmio.Valid.{IsValidQueue, IsValid}

-- There is a value.
abbrev pub Succeeds : Outcome ℕ → Type 0
Succeeds r = (val : ℕ) × (r ≡ done val)

pub selected-IsValidQueue :
    (s : Device) → IsValid s → (q : QueueState) × (selected s ≡ done q) × IsValidQueue q
unfolding selected get_queue
selected-IsValidQueue s v = elim (Bool-cases (s.queue_sel == 0)) [
  | inl e ↦ (s.queue.queue0, ground arith, v.queue0)
  | inr e ↦ (s.queue.queue1, ground arith, v.queue1)
]

selected-Succeeds :
    (s : Device) (f : QueueState → ℕ) → IsValid s → Succeeds (selected s >>= λ q. done (f q))
selected-Succeeds s f v = let (q, e, _) = selected-IsValidQueue s v in (f q, rw e)

read_register-Succeeds : (s : Device) (r : Register) → IsValid s → Succeeds (read_register s r)
unfolding read_register
read_register-Succeeds s queue_num v = selected-Succeeds s (λ q. q.num) v
read_register-Succeeds s queue_ready v = selected-Succeeds s (λ q. q.ready) v
read_register-Succeeds s queue_desc_low v = selected-Succeeds s _ v
read_register-Succeeds s queue_avail_low v = selected-Succeeds s _ v
read_register-Succeeds s queue_used_low v = selected-Succeeds s _ v
read_register-Succeeds s queue_desc_high v = selected-Succeeds s _ v
read_register-Succeeds s queue_avail_high v = selected-Succeeds s _ v
read_register-Succeeds s queue_used_high v = selected-Succeeds s _ v
read_register-Succeeds s _ v = (_, refl)

read_part-Succeeds :
    (buf : List ℕ) (pos n : ℕ) (f : List ℕ → ℕ)
    → pos + n ≤ length buf
    → Succeeds (read_buf buf pos n >>= λ p. done (f p))
read_part-Succeeds buf pos n f h = (f (take n (drop pos buf)), rw (read_buf-done buf pos n h))

window-Succeeds :
    (buf : List ℕ) (offset limit n : ℕ) (f : List ℕ → ℕ)
    → (offset < limit → offset + n ≤ length buf)
    → Succeeds (if ltb offset limit then (read_buf buf offset n >>= λ p. done (f p)) else done 0)
window-Succeeds buf offset limit n f fits = elim (Bool-cases (ltb offset limit)) [
  | inl e ↦ rw e (read_part-Succeeds buf offset n f (fits (ground arith)))
  | inr e ↦ (0, rw e)
]

-- The sizes that the `switch` of `virtio_config_read` names.
abbrev pub IsConfigSize : ℕ → Type 0
IsConfigSize size = (size ≡ 1) ⊎ (size ≡ 2) ⊎ (size ≡ 4)

config_read-Succeeds :
    (s : Device) (offset size : ℕ)
    → IsValid s
    → IsConfigSize size
    → Succeeds (virtio_config_read s offset size)
unfolding virtio_config_read
config_read-Succeeds s offset size v (inl one) =
    rw one (window-Succeeds s.config_space offset _ 1 _ (λ h. omega (arith, v.config_size)))
config_read-Succeeds s offset size v (inr (inl two)) =
    rw two (window-Succeeds s.config_space offset _ 2 _ (λ h. omega (arith, v.config_size)))
config_read-Succeeds s offset size v (inr (inr four)) =
    rw four (window-Succeeds s.config_space offset _ 4 _ (λ h. omega (arith, v.config_size)))

config_read-aborted :
    (s : Device) (offset size : ℕ)
    → ¬ IsConfigSize size
    → virtio_config_read s offset size ≡ aborted
unfolding virtio_config_read
config_read-aborted s offset size h =
    let one : (size == 1) ≡ false = ne→== (λ e. h (inl e)) in
    let two : (size == 2) ≡ false = ne→== (λ e. h (inr (inl e))) in
    let four : (size == 4) ≡ false = ne→== (λ e. h (inr (inr e))) in rw (one, two, four)

word_size-Succeeds :
    (s : Device) (r : Register) (size : ℕ)
    → IsValid s
    → Succeeds (if size == 4 then read_register s r else done 0)
word_size-Succeeds s r size v = elim (Bool-cases (size == 4)) [
  | inl e ↦ rw e (read_register-Succeeds s r v)
  | inr e ↦ (0, rw e)
]

size-cases : (size : ℕ) → IsConfigSize size ⊎ (¬ IsConfigSize size)
size-cases size = grind arith

-- On a valid device `virtio_mmio_read` gives a value at every offset and size, and never reads
-- outside the device, but for the configuration space (offset 0x100 and above) at a size other than 1, 2
-- and 4: there it calls `abort`, and gives no value.
pub virtio_mmio_read-total :
    (s : Device) (offset size : ℕ)
    → IsValid s
    → (Succeeds (virtio_mmio_read s offset size) × ((offset < 0x100) ⊎ IsConfigSize size))
      ⊎ ((virtio_mmio_read s offset size ≡ aborted) × (0x100 ≤ offset) × (¬ IsConfigSize size))
unfolding virtio_mmio_read
virtio_mmio_read-total s offset size v = elim (Bool-cases (leb 0x100 offset)) [
  | inl e ↦ rw e (elim (size-cases size) [
    | inl h ↦ inl (config_read-Succeeds s (offset - 0x100) size v h, inr h)
    | inr h ↦ inr (config_read-aborted s (offset - 0x100) size h, ground arith, h)
  ])
  | inr e ↦ rw e (inl (word_size-Succeeds s (register_of offset) size v, inl (ground arith)))
]
