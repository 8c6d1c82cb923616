-- ===== src/Storage/Qcow2/Header/Fields.antt =====
-- Each field of a header, read back from the bytes that write_to leaves.
use clone.Prelude.{ℕ, ◌+◌, ◌*◌, ◌/◌, ◌^◌, ◌≤◌, ◌<◌, ◌≡◌, arith, from_be}
use clone.Memory.Store.{Store, load, store}
use clone.Storage.File.{DiskFile, cut}
use clone.Storage.Qcow2.Header.{Qcow2Header, qcow2_magic, fill_v2, fill_v3}

-- The fields have their widths, and the code supports what they say.
pub record IsWellFormed (h : Qcow2Header) : Type 0 where
  pub is_qcow2 : h.magic ≡ qcow2_magic
  pub bits_low : 9 ≤ h.cluster_bits
  pub bits_high : h.cluster_bits ≤ 21
  pub plain : h.crypt_method ≡ 0
  pub backing_file_offset_64 : h.backing_file_offset < 2 ^ 64
  pub backing_file_size_32 : h.backing_file_size < 2 ^ 32
  pub size_64 : h.size < 2 ^ 64
  pub l1_size_32 : h.l1_size < 2 ^ 32
  pub l1_table_offset_64 : h.l1_table_offset < 2 ^ 64
  pub refcount_table_offset_64 : h.refcount_table_offset < 2 ^ 64
  pub refcount_table_clusters_32 : h.refcount_table_clusters < 2 ^ 32
  pub nb_snapshots_32 : h.nb_snapshots < 2 ^ 32
  pub snapshots_offset_64 : h.snapshots_offset < 2 ^ 64
  pub incompatible_features_64 : h.incompatible_features < 2 ^ 64
  pub compatible_features_64 : h.compatible_features < 2 ^ 64
  pub autoclear_features_64 : h.autoclear_features < 2 ^ 64
  pub refcount_order_32 : h.refcount_order < 2 ^ 32
  pub header_length_32 : h.header_length < 2 ^ 32

-- The bytes of the file after a header of `n` bytes is written.
abbrev pub written : DiskFile → Store → ℕ → Store
written f buf n = store (cut f) 0 (load buf 0 n)

module _ (h : Qcow2Header) (f : DiskFile) (v : IsWellFormed h) where
  pub magic_v2 : from_be (load (written f (fill_v2 h) 72) 0 4) ≡ h.magic
  unfolding store
  magic_v2 = omega arith

  pub backing_file_offset_v2 : from_be (load (written f (fill_v2 h) 72) 8 8) ≡ h.backing_file_offset
  unfolding store
  backing_file_offset_v2 = omega arith

  pub backing_file_size_v2 : from_be (load (written f (fill_v2 h) 72) 16 4) ≡ h.backing_file_size
  unfolding store
  backing_file_size_v2 = omega arith

  pub cluster_bits_v2 : from_be (load (written f (fill_v2 h) 72) 20 4) ≡ h.cluster_bits
  unfolding store
  cluster_bits_v2 = omega arith

  pub size_v2 : from_be (load (written f (fill_v2 h) 72) 24 8) ≡ h.size
  unfolding store
  size_v2 = omega arith

  pub crypt_method_v2 : from_be (load (written f (fill_v2 h) 72) 32 4) ≡ h.crypt_method
  unfolding store
  crypt_method_v2 = omega arith

  pub l1_size_v2 : from_be (load (written f (fill_v2 h) 72) 36 4) ≡ h.l1_size
  unfolding store
  l1_size_v2 = omega arith

  pub l1_table_offset_v2 : from_be (load (written f (fill_v2 h) 72) 40 8) ≡ h.l1_table_offset
  unfolding store
  l1_table_offset_v2 = omega arith

  pub refcount_table_offset_v2 :
      from_be (load (written f (fill_v2 h) 72) 48 8) ≡ h.refcount_table_offset
  unfolding store
  refcount_table_offset_v2 = omega arith

  pub refcount_table_clusters_v2 :
      from_be (load (written f (fill_v2 h) 72) 56 4) ≡ h.refcount_table_clusters
  unfolding store
  refcount_table_clusters_v2 = omega arith

  pub nb_snapshots_v2 : from_be (load (written f (fill_v2 h) 72) 60 4) ≡ h.nb_snapshots
  unfolding store
  nb_snapshots_v2 = omega arith

  pub snapshots_offset_v2 : from_be (load (written f (fill_v2 h) 72) 64 8) ≡ h.snapshots_offset
  unfolding store
  snapshots_offset_v2 = omega arith

  pub magic_v3 : from_be (load (written f (fill_v3 h) 104) 0 4) ≡ h.magic
  unfolding store
  magic_v3 = omega arith

  pub backing_file_offset_v3 :
      from_be (load (written f (fill_v3 h) 104) 8 8) ≡ h.backing_file_offset
  unfolding store
  backing_file_offset_v3 = omega arith

  pub backing_file_size_v3 : from_be (load (written f (fill_v3 h) 104) 16 4) ≡ h.backing_file_size
  unfolding store
  backing_file_size_v3 = omega arith

  pub cluster_bits_v3 : from_be (load (written f (fill_v3 h) 104) 20 4) ≡ h.cluster_bits
  unfolding store
  cluster_bits_v3 = omega arith

  pub size_v3 : from_be (load (written f (fill_v3 h) 104) 24 8) ≡ h.size
  unfolding store
  size_v3 = omega arith

  pub crypt_method_v3 : from_be (load (written f (fill_v3 h) 104) 32 4) ≡ h.crypt_method
  unfolding store
  crypt_method_v3 = omega arith

  pub l1_size_v3 : from_be (load (written f (fill_v3 h) 104) 36 4) ≡ h.l1_size
  unfolding store
  l1_size_v3 = omega arith

  pub l1_table_offset_v3 : from_be (load (written f (fill_v3 h) 104) 40 8) ≡ h.l1_table_offset
  unfolding store
  l1_table_offset_v3 = omega arith

  pub refcount_table_offset_v3 :
      from_be (load (written f (fill_v3 h) 104) 48 8) ≡ h.refcount_table_offset
  unfolding store
  refcount_table_offset_v3 = omega arith

  pub refcount_table_clusters_v3 :
      from_be (load (written f (fill_v3 h) 104) 56 4) ≡ h.refcount_table_clusters
  unfolding store
  refcount_table_clusters_v3 = omega arith

  pub nb_snapshots_v3 : from_be (load (written f (fill_v3 h) 104) 60 4) ≡ h.nb_snapshots
  unfolding store
  nb_snapshots_v3 = omega arith

  pub incompatible_features_v3 :
      from_be (load (written f (fill_v3 h) 104) 68 8) ≡ h.incompatible_features
  unfolding store
  incompatible_features_v3 = omega arith

  pub compatible_features_v3 :
      from_be (load (written f (fill_v3 h) 104) 76 8) ≡ h.compatible_features
  unfolding store
  compatible_features_v3 = omega arith

  pub autoclear_features_v3 : from_be (load (written f (fill_v3 h) 104) 84 8) ≡ h.autoclear_features
  unfolding store
  autoclear_features_v3 = omega arith

  pub refcount_order_v3 : from_be (load (written f (fill_v3 h) 104) 92 4) ≡ h.refcount_order
  unfolding store
  refcount_order_v3 = omega arith

  pub header_length_v3 : from_be (load (written f (fill_v3 h) 104) 96 4) ≡ h.header_length
  unfolding store
  header_length_v3 = omega arith

  -- The code writes the first extension over the low half of the field before it.
  pub snapshots_offset_v3 :
      from_be (load (written f (fill_v3 h) 104) 64 8)
      ≡ h.snapshots_offset / 2 ^ 32 * 2 ^ 32 + h.incompatible_features / 2 ^ 32
  unfolding store
  snapshots_offset_v3 = omega arith

  pub version_v2 : h.version ≡ 2 → from_be (load (written f (fill_v2 h) 72) 4 4) ≡ 2
  unfolding store
  version_v2 e = omega arith

  pub version_v3 : h.version ≡ 3 → from_be (load (written f (fill_v3 h) 104) 4 4) ≡ 3
  unfolding store
  version_v3 e = omega arith
