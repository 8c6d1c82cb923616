-- ===== src/Storage/Qcow2/Layout.antt =====
-- storage/qcow2.rs: Qcow2File::create, the metadata of a new image, and the helpers align_up and
-- div_round_up. Additions wrap at 2 ^ 64 as in a release build.
pub mod Regions
mod Tests
use clone.Prelude.{
  ℕ, zero, suc, ◌+◌, ◌-◌, ◌*◌, ◌/◌, ◌%◌, ◌^◌, Option, none, some, List, Bool, true, not, leb, ◌&&◌,
  if◌then◌else◌, length, max, to_be,
}
use clone.Storage.File.{DiskFile, empty, write_all, set_len}
use clone.Storage.Qcow2.Header.{Qcow2Header, qcow2_magic, default_refcount_order, write_to}

-- The mask clears the bits below `align`, which is a power of 2.
unfoldable pub align_up : ℕ → ℕ → ℕ
align_up value align = (value + align - 1) % 2 ^ 64 / align * align

unfoldable pub div_round_up : ℕ → ℕ → ℕ
div_round_up a b = (a + b - 1) % 2 ^ 64 / b

-- The numbers that `create` computes, in its order.
pub record Layout : Type 0 where
  pub cluster_size : ℕ
  pub l1_size : ℕ
  pub l1_clusters : ℕ
  pub refcounts_per_block : ℕ
  pub rc_blocks_needed : ℕ
  pub rc_table_clusters : ℕ
  pub total_meta_clusters : ℕ
  pub refcount_table_offset : ℕ
  pub first_rc_block_offset : ℕ
  pub l1_table_offset : ℕ
  pub file_end : ℕ

-- From the cluster size and the number of L1 clusters on.
unfoldable pub place : ℕ → ℕ → ℕ → Layout
unfolding div_round_up
place cluster_size l1_size l1_clusters =
    let refcounts_per_block = cluster_size / 2 in
    let rc_blocks_needed = div_round_up (3 + l1_clusters) refcounts_per_block in
    let rc_table_clusters = max (div_round_up (rc_blocks_needed * 8) cluster_size) 1 in
    let first_rc_block_offset = cluster_size + rc_table_clusters * cluster_size in
    let l1_table_offset = first_rc_block_offset + rc_blocks_needed * cluster_size in
    record {
      cluster_size = cluster_size;
      l1_size = l1_size;
      l1_clusters = l1_clusters;
      refcounts_per_block = refcounts_per_block;
      rc_blocks_needed = rc_blocks_needed;
      rc_table_clusters = rc_table_clusters;
      total_meta_clusters = 1 + rc_table_clusters + rc_blocks_needed + l1_clusters;
      refcount_table_offset = cluster_size;
      first_rc_block_offset = first_rc_block_offset;
      l1_table_offset = l1_table_offset;
      file_end = l1_table_offset + l1_clusters * cluster_size;
    }

-- l1_size is cast to u32.
unfoldable pub layout : ℕ → ℕ → Layout
unfolding place div_round_up
layout virtual_size cluster_bits =
    let cluster_size = 2 ^ cluster_bits in
    let total_clusters = div_round_up virtual_size cluster_size in
    let l1_size = div_round_up total_clusters (cluster_size / 8) % 2 ^ 32 in
    place cluster_size l1_size (div_round_up (l1_size * 8) cluster_size)

-- Where the loop writes the refcount of metadata cluster `cluster_idx`.
unfoldable pub refcount_offset : Layout → ℕ → ℕ
refcount_offset l cluster_idx =
    l.first_rc_block_offset
    + cluster_idx / l.refcounts_per_block * l.cluster_size
    + cluster_idx % l.refcounts_per_block * 2

abbrev pub new_header : Layout → ℕ → ℕ → Qcow2Header
new_header l virtual_size cluster_bits = record {
  magic = qcow2_magic;
  version = 3;
  backing_file_offset = 0;
  backing_file_size = 0;
  cluster_bits = cluster_bits;
  size = virtual_size;
  crypt_method = 0;
  l1_size = l.l1_size;
  l1_table_offset = l.l1_table_offset;
  refcount_table_offset = l.refcount_table_offset;
  refcount_table_clusters = l.rc_table_clusters % 2 ^ 32;
  nb_snapshots = 0;
  snapshots_offset = 0;
  incompatible_features = 0;
  compatible_features = 0;
  autoclear_features = 0;
  refcount_order = default_refcount_order;
  header_length = 104;
}

-- The refcount table's entries, `n` of them from index `i` on, behind one another.
unfoldable pub write_rc_table : Layout → ℕ → ℕ → DiskFile → DiskFile
write_rc_table l zero i f = f
write_rc_table l (suc n) i f = write_rc_table l n (suc i) (
    write_all f (l.refcount_table_offset + i * 8)
      (to_be 8 (l.first_rc_block_offset + i * l.cluster_size)))

-- A refcount of 1 for each metadata cluster, `n` of them from index `i` on.
unfoldable pub write_refcounts : Layout → ℕ → ℕ → DiskFile → DiskFile
write_refcounts l zero i f = f
write_refcounts l (suc n) i f =
    write_refcounts l n (suc i) (write_all f (refcount_offset l i) (to_be 2 1))

abbrev pub with_backing : Option (List ℕ) → Qcow2Header → Qcow2Header
with_backing none h = h
with_backing (some path) h = record h {
  backing_file_offset = 104;
  backing_file_size = length path % 2 ^ 32;
}

abbrev pub write_backing : Option (List ℕ) → DiskFile → DiskFile
write_backing none f = f
write_backing (some path) f = write_all f 104 path

abbrev pub backing_fits : Option (List ℕ) → ℕ → Bool
backing_fits none cluster_size = true
backing_fits (some path) cluster_size = leb (104 + length path) cluster_size

-- The file that is written; `backing` is the path's bytes. Opening it again is not part of this.
unfoldable pub create : ℕ → ℕ → Option (List ℕ) → Option DiskFile
unfolding layout write_rc_table write_refcounts refcount_offset
create virtual_size cluster_bits backing =
    let l = layout virtual_size cluster_bits in
    if not (leb 9 cluster_bits && leb cluster_bits 21)
    then none
    else if not (backing_fits backing l.cluster_size)
    then none
    else (let header = with_backing backing (new_header l virtual_size cluster_bits) in
        let f = write_to header empty in
        let f = write_backing backing f in
        let f = set_len f l.file_end in
        let f = write_rc_table l l.rc_blocks_needed 0 f in
        some (write_refcounts l l.total_meta_clusters 0 f))
