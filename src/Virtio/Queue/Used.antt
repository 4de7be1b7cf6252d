-- ===== src/Virtio/Queue/Used.antt =====
-- `virtio_consume_desc` against the used ring that the driver sees.
use mvvmm.Base.{
  ℕ, ◌+◌, ◌-◌, ◌*◌, ◌%◌, ◌^◌, ◌≤◌, ◌<◌, ◌≡◌, ◌⊎◌, inl, inr, refl, ap, ◌∙◌, ◌==◌, if◌then◌else◌, u16,
  u64, sub32, bit_and, bit_or, done, arith, Option, none, some, List, ◌∷◌,
}
use mvvmm.Base.Bits.{bit_and_mask}
use mvvmm.Guest.{GuestMem, bytes_at, le_value, le_bytes}
use native.Mathlib.Nat.{mod-lt, one-le-pow}
use mvvmm.Virtio.Memory.CopyTo.{stored}
use mvvmm.Guest.Frame.{
  bytes_at_ext, overlay-outside, bytes_at-overlay_outside, bytes_at-overlay_self,
}
use mvvmm.Guest.Words.{le_value-le_bytes}
use mvvmm.Virtio.Memory.Access.{read16-in_range, write16-in_range, write32-in_range}
use mvvmm.Virtio.Device.{QueueState, IrqEvent, signal_irqfd, Machine}
use mvvmm.Virtio.Queue.{queue_at, raise_used, used_entry_addr, virtio_consume_desc}

-- A used ring of `2 ^ k` entries, aligned and whole in the memory, apart from the flags of the
-- available ring.
pub record IsUsedRing (m : GuestMem) (q : QueueState) (k : ℕ) : Type 0 where
  pub num : q.num ≡ 2 ^ k
  pub small : q.num ≤ 2 ^ 15
  pub aligned : q.used_addr % 4 ≡ 0
  pub whole : q.used_addr + 4 + q.num * 8 ≤ m.size
  pub bounded : m.size < 2 ^ 64
  pub flags_aligned : q.avail_addr % 2 ≡ 0
  pub flags_whole : q.avail_addr + 2 ≤ m.size
  pub apart : (q.avail_addr + 2 ≤ q.used_addr) ⊎ (q.used_addr + 4 + q.num * 8 ≤ q.avail_addr)

-- The index of the used ring, the address of the entry that it stands for, and the driver's flags.
abbrev pub used_index : GuestMem → QueueState → ℕ
used_index m q = le_value (bytes_at m.byte (q.used_addr + 2) 2)

abbrev pub slot_addr : GuestMem → QueueState → ℕ
slot_addr m q = q.used_addr + 4 + used_index m q % q.num * 8

abbrev pub driver_flags : GuestMem → QueueState → ℕ
driver_flags m q = le_value (bytes_at m.byte q.avail_addr 2)

num-pos : (m : GuestMem) (q : QueueState) (k : ℕ) → IsUsedRing m q k → 0 < q.num
num-pos m q k r = omega (arith, r.num, one-le-pow k 2)

mask-mod : (num k i : ℕ) → num ≡ 2 ^ k → num < 2 ^ 32 → 0 < num → bit_and i (sub32 num 1) ≡ i % num
mask-mod num k i e small pos =
    let minus : sub32 num 1 ≡ num - 1 = omega arith in rw minus (rw e (bit_and_mask k i))

-- The entry lies in the ring, on its own 8 bytes.
pub slot_bounds :
    (m : GuestMem) (q : QueueState) (k : ℕ)
    → IsUsedRing m q k
    → (slot_addr m q % 4 ≡ 0)
      × (slot_addr m q + 8 ≤ q.used_addr + 4 + q.num * 8)
      × (slot_addr m q + 8 ≤ m.size)
slot_bounds m q k r =
    let low : used_index m q % q.num < q.num = mod-lt (used_index m q) (num-pos m q k r) in
    (omega (arith, r.aligned), omega arith, omega (arith, r.whole))

used_entry-slot :
    (m : GuestMem) (q : QueueState) (k : ℕ)
    → IsUsedRing m q k
    → used_entry_addr q (used_index m q) ≡ slot_addr m q
unfolding used_entry_addr
used_entry-slot m q k r =
    let pos = num-pos m q k r in
    let low : used_index m q % q.num < q.num = mod-lt (used_index m q) pos in
    rw (mask-mod q.num k (used_index m q) r.num (omega (arith, r.small)) pos)
      (omega (arith, r.small, r.whole, r.bounded))

unfoldable pub raised : Option ℕ → List IrqEvent → List IrqEvent
raised none irqs = irqs
raised (some fd) irqs = signal_irqfd fd ∷ irqs

-- The memory with the entry written and the index moved on.
abbrev published : GuestMem → QueueState → ℕ → ℕ → GuestMem
published m q desc_idx desc_len =
    stored
      (stored (stored m (slot_addr m q) (le_bytes 4 desc_idx)) (slot_addr m q + 4)
        (le_bytes 4 desc_len))
      (q.used_addr + 2) (le_bytes 2 (u16 (used_index m q + 1)))

module _ (m : GuestMem) (q : QueueState) (k desc_idx desc_len : ℕ) (r : IsUsedRing m q k) where
  abbrev after : GuestMem
  after = published m q desc_idx desc_len

  published-outside :
      (p : ℕ)
      → (p < q.used_addr + 2) ⊎ (q.used_addr + 4 ≤ p)
      → (p < slot_addr m q) ⊎ (slot_addr m q + 8 ≤ p)
      → after.byte p ≡ m.byte p
  published-outside p out away =
      overlay-outside _ (q.used_addr + 2) (le_bytes 2 (u16 (used_index m q + 1))) p (ground arith)
      ∙ overlay-outside _ (slot_addr m q + 4) (le_bytes 4 desc_len) p (ground arith)
      ∙ overlay-outside m.byte (slot_addr m q) (le_bytes 4 desc_idx) p (ground arith)

  published-flags : bytes_at after.byte q.avail_addr 2 ≡ bytes_at m.byte q.avail_addr 2
  published-flags =
      let (_, inside, _) = slot_bounds m q k r in
      let apart = r.apart in
      bytes_at_ext after.byte m.byte q.avail_addr 2
        (λ p lo hi. published-outside p (ground arith) (ground arith))

  published-index : desc_idx < 2 ^ 32 → used_index after q ≡ u16 (used_index m q + 1)
  published-index small =
      ap le_value
        (bytes_at-overlay_self _ (q.used_addr + 2) (le_bytes 2 (u16 (used_index m q + 1))))
      ∙ le_value-le_bytes 2 (u16 (used_index m q + 1)) (omega arith)

  published-id : desc_idx < 2 ^ 32 → le_value (bytes_at after.byte (slot_addr m q) 4) ≡ desc_idx
  published-id small =
      ap le_value (
        bytes_at-overlay_outside _ (q.used_addr + 2) _ (slot_addr m q) 4 (inr (omega arith))
        ∙ bytes_at-overlay_outside _ (slot_addr m q + 4) _ (slot_addr m q) 4 (inl (omega arith))
        ∙ bytes_at-overlay_self m.byte (slot_addr m q) (le_bytes 4 desc_idx))
      ∙ le_value-le_bytes 4 desc_idx small

  published-len :
      desc_len < 2 ^ 32 → le_value (bytes_at after.byte (slot_addr m q + 4) 4) ≡ desc_len
  published-len small =
      ap le_value (
        bytes_at-overlay_outside _ (q.used_addr + 2) _ (slot_addr m q + 4) 4 (inr (omega arith))
        ∙ bytes_at-overlay_self _ (slot_addr m q + 4) (le_bytes 4 desc_len))
      ∙ le_value-le_bytes 4 desc_len small

  consume-published :
      {B : Type 0} (s : Machine B) (i : ℕ)
      → s.mem ≡ m
      → queue_at s.dev i ≡ done q
      → virtio_consume_desc s i desc_idx desc_len
        ≡ done (raise_used (driver_flags m q) (record s { mem = after }))
  unfolding virtio_consume_desc
  consume-published s i e at_queue =
      let slot = slot_addr m q in
      let (four, inside, fits) = slot_bounds m q k r in
      let index_addr : u64 (q.used_addr + 2) ≡ q.used_addr + 2 =
        omega (arith, r.whole, r.bounded) in
      let len_addr : u64 (slot + 4) ≡ slot + 4 = omega (arith, r.bounded) in
      rw
        (
          e,
          at_queue,
          index_addr,
          read16-in_range m (q.used_addr + 2) (omega (arith, r.aligned)) (omega (arith, r.whole)),
          used_entry-slot m q k r,
          len_addr,
          write32-in_range m slot desc_idx four (omega arith),
          write32-in_range (stored m slot (le_bytes 4 desc_idx)) (slot + 4) desc_len (omega arith)
              (omega arith),
          write16-in_range
              (stored (stored m slot (le_bytes 4 desc_idx)) (slot + 4) (le_bytes 4 desc_len))
              (q.used_addr + 2) (u16 (used_index m q + 1)) (omega (arith, r.aligned))
              (omega (arith, r.whole)),
          read16-in_range after q.avail_addr r.flags_aligned r.flags_whole,
        )
        (ap (λ b. done (raise_used (le_value b) (record s { mem = after }))) published-flags)

raise_used-parts :
    {B : Type 0} (flags : ℕ) (s : Machine B)
    → ((raise_used flags s).mem ≡ s.mem)
      × ((raise_used flags s).irqs
          ≡ (if bit_and flags 1 == 0 then raised s.dev.irqfd s.irqs else s.irqs))
      × ((raise_used flags s).dev.int_status
          ≡ (if bit_and flags 1 == 0 then bit_or s.dev.int_status 1 else s.dev.int_status))
      × ((raise_used flags s).dev.queue ≡ s.dev.queue)
      × ((raise_used flags s).backend ≡ s.backend)
unfolding raise_used raised
raise_used-parts flags s = ground arith

-- On a used ring of 2 ^ k entries that lies aligned and whole in the memory, apart from the flags
-- of the available ring, `virtio_consume_desc` of a 32-bit descriptor and length returns, and
-- then: the entry that the old index stands for modulo the number of entries holds the descriptor
-- and the length; the index is one more, modulo 2 ^ 16; no other byte of the memory has changed;
-- the interrupt is raised, in the status and at the irqfd, exactly if the driver's flags do not
-- suppress it; and the queues are as before.
pub virtio_consume_desc_lem :
    {B : Type 0} (s : Machine B) (q : QueueState) (k i desc_idx desc_len : ℕ)
    → IsUsedRing s.mem q k
    → queue_at s.dev i ≡ done q
    → desc_idx < 2 ^ 32
    → desc_len < 2 ^ 32
    → (s' : Machine B) × (virtio_consume_desc s i desc_idx desc_len ≡ done s')
      × (le_value (bytes_at s'.mem.byte (slot_addr s.mem q) 4) ≡ desc_idx)
      × (le_value (bytes_at s'.mem.byte (slot_addr s.mem q + 4) 4) ≡ desc_len)
      × (used_index s'.mem q ≡ u16 (used_index s.mem q + 1))
      × ((p : ℕ)
          → (p < q.used_addr + 2) ⊎ (q.used_addr + 4 ≤ p)
          → (p < slot_addr s.mem q) ⊎ (slot_addr s.mem q + 8 ≤ p)
          → s'.mem.byte p ≡ s.mem.byte p)
      × (s'.irqs
          ≡ (if bit_and (driver_flags s.mem q) 1 == 0 then raised s.dev.irqfd s.irqs else s.irqs))
      × (s'.dev.int_status ≡ (
          if bit_and (driver_flags s.mem q) 1 == 0
          then bit_or s.dev.int_status 1
          else s.dev.int_status))
      × (s'.dev.queue ≡ s.dev.queue)
      × (s'.backend ≡ s.backend)
virtio_consume_desc_lem s q k i desc_idx desc_len r e hd hl =
    let m = s.mem in
    let s1 = record s { mem = published m q desc_idx desc_len } in
    let (mem, irqs, status, queue, backend) = raise_used-parts (driver_flags m q) s1 in
    (
      raise_used (driver_flags m q) s1,
      consume-published m q k desc_idx desc_len r s i refl e,
      rw mem (published-id m q k desc_idx desc_len r hd),
      rw mem (published-len m q k desc_idx desc_len r hl),
      rw mem (published-index m q k desc_idx desc_len r hd),
      rw mem (published-outside m q k desc_idx desc_len r),
      irqs,
      status,
      queue,
      backend,
    )
