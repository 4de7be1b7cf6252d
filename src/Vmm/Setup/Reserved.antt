-- ===== src/Vmm/Setup/Reserved.antt =====
-- The pages that KVM keeps for itself, against the memory of the guest.
use mvvmm.Base.{ℕ, ◌+◌, ◌^◌, ◌≤◌, ◌<◌, arith}
use mvvmm.Vmm.{memory_regions, setup_e820_map}
use mvvmm.Vmm.Layout.{Listed, Backed}
use mvvmm.Vmm.Setup.Init.{tss_addr, identity_map_addr}

-- The three pages from `tss_addr` and the page at `identity_map_addr`, which `mvvm_init` gives to KVM,
-- are one after the other, and no address in them is backed by a region of the memory, whatever its
-- size; with 1 MB of memory or more, below 2 ^ 64, none is listed as RAM either.
pub reserved-unbacked :
    (mem_size p host : ℕ)
    → tss_addr ≤ p
    → p < identity_map_addr + 4096
    → (Backed p host (memory_regions mem_size) → ⊥)
      × (0x100000 ≤ mem_size → mem_size < 2 ^ 64 → Listed p (setup_e820_map mem_size) → ⊥)
unfolding memory_regions setup_e820_map
reserved-unbacked mem_size p host low high = ground arith
