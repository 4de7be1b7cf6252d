-- ===== src/Virtio.antt =====
-- The virtio device model (virtio.c, virtio.h), one child for each part of it.
pub mod Memory
pub mod Device
pub mod Chain
pub mod Queue
pub mod Config
pub mod Mmio
pub mod Block
pub mod Events
pub mod Net
