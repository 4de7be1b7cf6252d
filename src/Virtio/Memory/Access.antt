-- ===== src/Virtio/Memory/Access.antt =====
-- The aligned 16 and 32 bit accesses.
use mvvmm.Base.{ℕ, ◌+◌, ◌%◌, ◌^◌, ◌≤◌, ◌<◌, ◌≡◌, ap, ◌∙◌, ◌↔◌, done, crash, arith, ◌⊎◌}
use mvvmm.Guest.{GuestMem, bytes_at, le_value, le_bytes, overlay, load_bytes, store_bytes}
use mvvmm.Guest.Frame.{bytes_at-overlay_self, overlay-outside}
use mvvmm.Guest.Words.{le_value-le_bytes}
use mvvmm.Virtio.Memory.{read16, write16, write32}

module _ (m : GuestMem) (addr : ℕ) where
  -- An aligned address whose two bytes lie in the memory: the little-endian number there.
  pub read16-in_range :
      addr % 2 ≡ 0 → addr + 2 ≤ m.size → read16 m addr ≡ done (le_value (bytes_at m.byte addr 2))
  unfolding read16 load_bytes
  read16-in_range even fits = ground arith

  pub write16-in_range :
      (val : ℕ)
      → addr % 2 ≡ 0
      → addr + 2 ≤ m.size
      → write16 m addr val ≡ done (record m { byte = overlay m.byte addr (le_bytes 2 val) })
  unfolding write16 store_bytes
  write16-in_range val even fits = ground arith

  pub write32-in_range :
      (val : ℕ)
      → addr % 4 ≡ 0
      → addr + 4 ≤ m.size
      → write32 m addr val ≡ done (record m { byte = overlay m.byte addr (le_bytes 4 val) })
  unfolding write32 store_bytes
  write32-in_range val even fits = ground arith

  -- `virtio_read16` leaves the mapping exactly at the even addresses up to `size` whose two bytes
  -- are not both inside: the check `guest_addr > size` lets them through.
  pub read16_crash_iff :
      (read16 m addr ≡ crash) ↔ ((addr % 2 ≡ 0) × (addr ≤ m.size) × (m.size < addr + 2))
  unfolding read16 load_bytes
  read16_crash_iff = (λ h. ground arith, λ h. ground arith)

-- A 16-bit value that `virtio_write16` puts at an even address whose two bytes lie in the memory,
-- `virtio_read16` gets back, and no other byte changes.
pub read16-write16 :
    (m : GuestMem) (addr val : ℕ)
    → addr % 2 ≡ 0
    → addr + 2 ≤ m.size
    → val < 2 ^ 16
    → (m' : GuestMem) × (write16 m addr val ≡ done m')
      × (read16 m' addr ≡ done val)
      × ((q : ℕ) → (q < addr) ⊎ (addr + 2 ≤ q) → m'.byte q ≡ m.byte q)
read16-write16 m addr val even fits small = (
  m',
  write16-in_range m addr val even fits,
  read16-in_range m' addr even fits
      ∙ ap (λ bs. done (le_value bs)) (bytes_at-overlay_self m.byte addr (le_bytes 2 val))
      ∙ ap done (le_value-le_bytes 2 val small),
  λ q away. overlay-outside m.byte addr (le_bytes 2 val) q away,
)
  where
    m' : GuestMem
    m' = record m { byte = overlay m.byte addr (le_bytes 2 val) }
