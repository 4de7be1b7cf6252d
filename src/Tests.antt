-- ===== src/Tests.antt =====
-- Concrete runs of the program's parts.
mod Fixture
mod Memory
mod Chain
mod Deliver
mod Queue
mod Mmio
mod Serial
mod Vmm
mod Run
mod Cli
mod ThreadPool
mod Disk
mod Boot
mod Keyboard
mod Events
mod Poll
mod Shutdown
mod Tap
mod Setup
mod Main
mod Service
mod Sectors
mod Pool
