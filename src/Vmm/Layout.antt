-- ===== src/Vmm/Layout.antt =====
-- The guest is told of RAM exactly where KVM backs it.
use mvvmm.Base.{ℕ, ◌+◌, ◌-◌, ◌^◌, ◌≤◌, ◌<◌, ◌≡◌, ◌⊎◌, List, [], ◌∷◌, arith}
use mvvmm.Vmm.{reserved_addr, reserved_size, Region, memory_regions, E820Entry, setup_e820_map}

-- The address lies in one of the entries.
abbrev pub Listed : ℕ → List E820Entry → Type 0
Listed p [] = ⊥
Listed p (e ∷ es) = ((e.addr ≤ p) × (p < e.addr + e.size)) ⊎ Listed p es

-- A region backs the address, by the byte of the mapping that `host_offset` leads to.
abbrev pub Backed : ℕ → ℕ → List Region → Type 0
Backed p host [] = ⊥
Backed p host (r ∷ rs) =
    ((r.guest_phys_addr ≤ p)
      × (p < r.guest_phys_addr + r.memory_size)
      × (host ≡ r.host_offset + (p - r.guest_phys_addr)))
    ⊎ Backed p host rs

-- With 1 MB of memory or more, below 2 ^ 64, every address that the table lists as RAM is backed
-- by the byte of the mapping at the same offset, which is inside it; and it is outside the
-- reserved pages.
pub setup_e820_map-Backed :
    (mem_size p : ℕ)
    → 0x100000 ≤ mem_size
    → mem_size < 2 ^ 64
    → Listed p (setup_e820_map mem_size)
    → Backed p p (memory_regions mem_size)
      × (p < mem_size)
      × ((p < reserved_addr) ⊎ (reserved_addr + reserved_size ≤ p))
unfolding setup_e820_map memory_regions
setup_e820_map-Backed mem_size p large small listed = ground arith

-- With 1 MB of memory or more, below 2 ^ 64, every address that a region backs is listed as RAM,
-- but for those between 640 KB and 1 MB.
pub memory_regions-Listed :
    (mem_size p host : ℕ)
    → 0x100000 ≤ mem_size
    → mem_size < 2 ^ 64
    → Backed p host (memory_regions mem_size)
    → Listed p (setup_e820_map mem_size) ⊎ ((0xA0000 ≤ p) × (p < 0x100000))
unfolding setup_e820_map memory_regions
memory_regions-Listed mem_size p host large small backed = ground arith
