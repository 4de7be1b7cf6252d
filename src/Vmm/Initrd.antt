-- ===== src/Vmm/Initrd.antt =====
-- `load_initrd` against the memory that it leaves.
use mvvmm.Base.{ℕ, ◌+◌, ◌≤◌, ◌<◌, ◌≡◌, ◌⊎◌, some, List, length, u32, done, arith}
use mvvmm.Guest.{GuestMem, bytes_at, overlay, store_bytes}
use mvvmm.Guest.Frame.{bytes_at-overlay_self, overlay-outside}
use mvvmm.Vmm.{file, initrd_addr, load_initrd}

-- A file that ends below the end of the memory is loaded: its bytes stand at 192 MB, no other byte
-- of the memory changes, and the header has the address and the size modulo 2 ^ 32.
pub load_initrd-places :
    (m : GuestMem) (bytes : List ℕ)
    → initrd_addr + length bytes < m.size
    → (m' : GuestMem) × (load_initrd m (file bytes)
        ≡ done (some (m', initrd_addr, u32 (length bytes))))
      × (bytes_at m'.byte initrd_addr (length bytes) ≡ bytes)
      × ((p : ℕ) → (p < initrd_addr) ⊎ (initrd_addr + length bytes ≤ p) → m'.byte p ≡ m.byte p)
unfolding load_initrd store_bytes
load_initrd-places m bytes fits = (
  record m { byte = overlay m.byte initrd_addr bytes },
  ground arith,
  bytes_at-overlay_self m.byte initrd_addr bytes,
  λ p away. overlay-outside m.byte initrd_addr bytes p away,
)
