-- ===== src/Tests/Vmm.antt =====
-- Runs of the layout of the memory.
use mvvmm.Base.{◌+◌, ◌≤◌, ◌<◌, ◌⊎◌, arith}
use mvvmm.Vmm.{reserved_addr, reserved_size, memory_regions, setup_e820_map}
use mvvmm.Vmm.Layout.{Backed, setup_e820_map-Backed}

-- 8 GB, and an address above the reserved pages.
setup_e820_map-Backed_example :
    Backed 0x100000000 0x100000000 (memory_regions 0x200000000)
    × (0x100000000 < 0x200000000)
    × ((0x100000000 < reserved_addr) ⊎ (reserved_addr + reserved_size ≤ 0x100000000))
unfolding setup_e820_map
setup_e820_map-Backed_example =
    setup_e820_map-Backed 0x200000000 0x100000000 (omega arith) (omega arith) (ground arith)
