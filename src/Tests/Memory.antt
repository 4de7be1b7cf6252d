-- ===== src/Tests/Memory.antt =====
-- Runs of the accesses to the guest's memory.
use mvvmm.Base.{◌%◌, ◌+◌, ◌≤◌, ◌<◌, ◌≡◌, ◌↔◌, crash}
use mvvmm.Virtio.Memory.{read16}
use mvvmm.Virtio.Memory.Access.{read16_crash_iff}
use mvvmm.Tests.Fixture.{mem}

read16_crash_iff_example :
    (read16 mem 4096 ≡ crash) ↔ ((4096 % 2 ≡ 0) × (4096 ≤ mem.size) × (mem.size < 4096 + 2))
read16_crash_iff_example = read16_crash_iff mem 4096
