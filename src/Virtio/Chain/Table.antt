-- ===== src/Virtio/Chain/Table.antt =====
-- The descriptor table under stores into buffers that lie apart from it.
use mvvmm.Base.{ℕ, ◌+◌, ◌*◌, ◌≤◌, ◌<◌, ◌≡◌, ◌⊎◌, ap, ◌∙◌, true, List, [], ◌∷◌, length, arith}
use mvvmm.Guest.{GuestMem}
use mvvmm.Guest.Frame.{bytes_at-overlay_outside}
use mvvmm.Virtio.Device.{QueueState}
use mvvmm.Virtio.Memory.CopyTo.{stored}
use mvvmm.Virtio.Chain.{VirtioDesc, fields, desc_size, has_next}
use mvvmm.Virtio.Chain.Layout.{desc_at, Follows}
use mvvmm.Virtio.Chain.Spread.{Apart}

-- Where there is a next descriptor, it is one of the first `entries`.
abbrev pub Indexed : ℕ → List VirtioDesc → Type 0
Indexed entries [] = Unit {0}
Indexed entries (d ∷ ds) = (has_next d ≡ true → d.next < entries) × Indexed entries ds

-- The buffers lie apart from a table of `entries` descriptors, and lead to no other.
abbrev pub Safe : QueueState → ℕ → List VirtioDesc → Type 0
Safe qs entries ds = Apart qs.desc_addr (qs.desc_addr + entries * desc_size) ds × Indexed entries ds

module _ (m : GuestMem) (qs : QueueState) (entries p : ℕ) (bs : List ℕ)
    (away : (p + length bs ≤ qs.desc_addr) ⊎ (qs.desc_addr + entries * desc_size ≤ p)) where
  desc_at-stored : (idx : ℕ) → idx < entries → desc_at (stored m p bs) qs idx ≡ desc_at m qs idx
  unfolding desc_at
  desc_at-stored idx small = ap fields (
      bytes_at-overlay_outside m.byte p bs (qs.desc_addr + idx * desc_size) desc_size
        (ground arith))

  -- The walk is the same in the memory after the store.
  pub Follows-stored :
      (d : VirtioDesc) (ds : List VirtioDesc)
      → Indexed entries (d ∷ ds)
      → Follows m qs d ds
      → Follows (stored m p bs) qs d ds
  Follows-stored d [] i f = tt
  Follows-stored d (d' ∷ ds) (small, i) (more, t, at_next, f) =
      (more, t, desc_at-stored d.next (small more) ∙ at_next, Follows-stored d' ds i f)
