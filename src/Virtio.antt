-- ===== src/Virtio.antt =====
-- The virtio devices' transport, src/virtio: virtqueues, the MMIO register interface and its bus.
pub mod Queue
pub mod Device
pub mod Mmio
pub mod Bus
pub mod Balloon
