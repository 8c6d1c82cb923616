-- ===== src/Storage.antt =====
-- Disk images, src/storage.
pub mod File
pub mod Reply
pub mod Qcow2
