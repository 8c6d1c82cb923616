-- ===== src/Vmm.antt =====
-- The virtual machine monitor, src/vmm: its serial port.
pub mod Json
pub mod Serial
