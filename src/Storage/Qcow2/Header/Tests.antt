-- ===== src/Storage/Qcow2/Header/Tests.antt =====
-- Headers written and read back.
use clone.Prelude.{◌≡◌, refl, some, arith}
use clone.Storage.File.{empty}
use clone.Storage.Qcow2.Header.{Qcow2Header, qcow2_magic, read_from, write_to}
use clone.Storage.Qcow2.Header.Fields.{IsWellFormed}
use clone.Storage.Qcow2.Header.Roundtrip.{read_from-write_to_v2, read_from-write_to_v3}

abbrev plain : Qcow2Header
plain = record {
  magic = qcow2_magic;
  version = 2;
  backing_file_offset = 0;
  backing_file_size = 0;
  cluster_bits = 16;
  size = 0x4000_0000;
  crypt_method = 0;
  l1_size = 2;
  l1_table_offset = 0x3_0000;
  refcount_table_offset = 0x1_0000;
  refcount_table_clusters = 1;
  nb_snapshots = 0;
  snapshots_offset = 0x5_0000;
  incompatible_features = 0;
  compatible_features = 0;
  autoclear_features = 0;
  refcount_order = 4;
  header_length = 72;
}

abbrev extended : Qcow2Header
extended = record plain { version = 3; header_length = 104 }

plain-IsWellFormed : IsWellFormed plain
plain-IsWellFormed = omega arith

extended-IsWellFormed : IsWellFormed extended
extended-IsWellFormed = omega arith

read_from-write_to_v2_example : read_from (write_to plain empty) ≡ some plain
read_from-write_to_v2_example =
    read_from-write_to_v2 plain empty plain-IsWellFormed refl (refl, refl, refl, refl, refl)

-- The offset 0x5_0000 of the snapshots is lost.
read_from-write_to_v3_example :
    read_from (write_to extended empty) ≡ some (record extended { snapshots_offset = 0 })
read_from-write_to_v3_example = read_from-write_to_v3 extended empty extended-IsWellFormed refl
