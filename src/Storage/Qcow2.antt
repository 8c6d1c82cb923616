-- ===== src/Storage/Qcow2.antt =====
-- storage/qcow2.rs: QCOW2 disk images. `Header` has the on-disk header, `Layout` the metadata of a
-- new image, and `Image` the open image: translation, allocation, reads and writes.
pub mod Header
pub mod Layout
pub mod Image
