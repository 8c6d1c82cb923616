-- ===== src/Memory.antt =====
-- The memory subsystem, src/memory: guest memory, the tables written there for the boot, and the
-- balloon policy.
pub mod Store
pub mod Guest
pub mod Paging
pub mod Balloon
