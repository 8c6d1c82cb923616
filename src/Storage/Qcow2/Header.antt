-- ===== src/Storage/Qcow2/Header.antt =====
-- storage/qcow2.rs: Qcow2Header, its parser and its printer.
pub mod Fields
pub mod Roundtrip
mod Tests
use clone.Prelude.{
  ℕ, ◌+◌, ◌*◌, ◌/◌, ◌^◌, Option, none, some, List, Bool, true, false, not, ltb, leb, ◌==◌, ◌&&◌,
  ◌||◌, if◌then◌else◌, length, to_be, from_be,
}
use clone.Memory.Store.{Store, load, store}
use clone.Storage.File.{DiskFile, write_all}

pub record Qcow2Header : Type 0 where
  pub magic : ℕ
  pub version : ℕ
  pub backing_file_offset : ℕ
  pub backing_file_size : ℕ
  pub cluster_bits : ℕ
  pub size : ℕ
  pub crypt_method : ℕ
  pub l1_size : ℕ
  pub l1_table_offset : ℕ
  pub refcount_table_offset : ℕ
  pub refcount_table_clusters : ℕ
  pub nb_snapshots : ℕ
  pub snapshots_offset : ℕ
  pub incompatible_features : ℕ
  pub compatible_features : ℕ
  pub autoclear_features : ℕ
  pub refcount_order : ℕ
  pub header_length : ℕ

abbrev pub qcow2_magic : ℕ
qcow2_magic = 0x514649fb

abbrev pub default_refcount_order : ℕ
default_refcount_order = 4

-- The fields of both versions, from the buffer.
abbrev pub parse_v2 : Store → Qcow2Header
parse_v2 buf = record {
  magic = from_be (load buf 0 4);
  version = from_be (load buf 4 4);
  backing_file_offset = from_be (load buf 8 8);
  backing_file_size = from_be (load buf 16 4);
  cluster_bits = from_be (load buf 20 4);
  size = from_be (load buf 24 8);
  crypt_method = from_be (load buf 32 4);
  l1_size = from_be (load buf 36 4);
  l1_table_offset = from_be (load buf 40 8);
  refcount_table_offset = from_be (load buf 48 8);
  refcount_table_clusters = from_be (load buf 56 4);
  nb_snapshots = from_be (load buf 60 4);
  snapshots_offset = from_be (load buf 64 8);
  incompatible_features = 0;
  compatible_features = 0;
  autoclear_features = 0;
  refcount_order = default_refcount_order;
  header_length = 72;
}

-- The v3 extensions, at the offsets that the code has.
abbrev pub parse_v3 : Store → Qcow2Header → Qcow2Header
parse_v3 buf h = record h {
  incompatible_features = from_be (load buf 68 8);
  compatible_features = from_be (load buf 76 8);
  autoclear_features = from_be (load buf 84 8);
  refcount_order = from_be (load buf 92 4);
  header_length = from_be (load buf 96 4);
}

-- The checks before the extensions are read: magic, version, cluster_bits, crypt_method.
abbrev pub supported : ℕ → ℕ → ℕ → ℕ → Bool
supported magic version cluster_bits crypt_method =
    magic == qcow2_magic
    && (version == 2 || version == 3)
    && (leb 9 cluster_bits && leb cluster_bits 21)
    && crypt_method == 0

abbrev pub is_supported : Qcow2Header → Bool
is_supported h = supported h.magic h.version h.cluster_bits h.crypt_method

-- The checks, then the extensions of version 3; `none` is any of the errors.
unfoldable pub accept : DiskFile → Qcow2Header → Option Qcow2Header
accept file h =
    if not (is_supported h)
    then none
    else if h.version == 3
    then (if leb 104 file.len then some (parse_v3 file.content h) else none)
    else some h

-- The buffer is read in two parts, the second for version 3.
unfoldable pub read_from : DiskFile → Option Qcow2Header
unfolding accept
read_from file = if not (leb 72 file.len) then none else accept file (parse_v2 file.content)

abbrev pub zeros : Store
zeros j = 0

-- The buffer that write_to fills, in the order of its copies.
abbrev pub fill_v2 : Qcow2Header → Store
fill_v2 h =
    let b = store zeros 0 (to_be 4 h.magic) in
    let b = store b 4 (to_be 4 h.version) in
    let b = store b 8 (to_be 8 h.backing_file_offset) in
    let b = store b 16 (to_be 4 h.backing_file_size) in
    let b = store b 20 (to_be 4 h.cluster_bits) in
    let b = store b 24 (to_be 8 h.size) in
    let b = store b 32 (to_be 4 h.crypt_method) in
    let b = store b 36 (to_be 4 h.l1_size) in
    let b = store b 40 (to_be 8 h.l1_table_offset) in
    let b = store b 48 (to_be 8 h.refcount_table_offset) in
    let b = store b 56 (to_be 4 h.refcount_table_clusters) in
    let b = store b 60 (to_be 4 h.nb_snapshots) in store b 64 (to_be 8 h.snapshots_offset)

abbrev pub fill_v3 : Qcow2Header → Store
fill_v3 h =
    let b = store (fill_v2 h) 68 (to_be 8 h.incompatible_features) in
    let b = store b 76 (to_be 8 h.compatible_features) in
    let b = store b 84 (to_be 8 h.autoclear_features) in
    let b = store b 92 (to_be 4 h.refcount_order) in store b 96 (to_be 4 h.header_length)

unfoldable pub write_to : Qcow2Header → DiskFile → DiskFile
write_to h file =
    if h.version == 3
    then write_all file 0 (load (fill_v3 h) 0 104)
    else write_all file 0 (load (fill_v2 h) 0 72)

unfoldable pub cluster_size : Qcow2Header → ℕ
cluster_size h = 2 ^ h.cluster_bits

unfoldable pub l2_entries_per_table : Qcow2Header → ℕ
unfolding cluster_size
l2_entries_per_table h = cluster_size h / 8

unfoldable pub refcount_bits : Qcow2Header → ℕ
refcount_bits h = 2 ^ h.refcount_order
