-- ===== src/Storage/Qcow2/Header/Roundtrip.antt =====
-- What reading a header back gives.
use clone.Prelude.{
  ℕ, ◌+◌, ◌*◌, ◌/◌, ◌^◌, ◌≤◌, ◌≡◌, refl, sym, some, true, ◌⊎◌, inl, inr, arith, ap, le→leb,
  if◌then◌else◌, ◌==◌, ◌∙◌,
}
use clone.Memory.Store.{load}
use clone.Storage.File.{DiskFile, write_all}
use clone.Storage.Qcow2.Header.{
  Qcow2Header, read_from, write_to, is_supported, supported, accept, fill_v2, fill_v3, parse_v2,
  parse_v3,
}
use clone.Storage.Qcow2.Header.Fields.{
  IsWellFormed, written, magic_v2, backing_file_offset_v2, backing_file_size_v2, cluster_bits_v2,
  size_v2, crypt_method_v2, l1_size_v2, l1_table_offset_v2, refcount_table_offset_v2,
  refcount_table_clusters_v2, nb_snapshots_v2, snapshots_offset_v2, magic_v3,
  backing_file_offset_v3, backing_file_size_v3, cluster_bits_v3, size_v3, crypt_method_v3,
  l1_size_v3, l1_table_offset_v3, refcount_table_offset_v3, refcount_table_clusters_v3,
  nb_snapshots_v3, incompatible_features_v3, compatible_features_v3, autoclear_features_v3,
  refcount_order_v3, header_length_v3, snapshots_offset_v3, version_v2, version_v3,
}

supported-IsWellFormed :
    (h : Qcow2Header) (version : ℕ)
    → IsWellFormed h
    → (version ≡ 2) ⊎ (version ≡ 3)
    → supported h.magic version h.cluster_bits h.crypt_method ≡ true
supported-IsWellFormed h version v e = ground arith

read_from_v2 :
    (file : DiskFile)
    → 72 ≤ file.len
    → is_supported (parse_v2 file.content) ≡ true
    → (parse_v2 file.content).version ≡ 2
    → read_from file ≡ some (parse_v2 file.content)
unfolding read_from
read_from_v2 file l s e = rw (le→leb 72 file.len l) (accepted (parse_v2 file.content) s e)
  where
    accepted : (h : Qcow2Header) → is_supported h ≡ true → h.version ≡ 2 → accept file h ≡ some h
    accepted h s e = ground arith

read_from_v3 :
    (file : DiskFile)
    → 104 ≤ file.len
    → is_supported (parse_v2 file.content) ≡ true
    → (parse_v2 file.content).version ≡ 3
    → read_from file ≡ some (parse_v3 file.content (parse_v2 file.content))
unfolding read_from
read_from_v3 file l s e =
    rw (le→leb 72 file.len (omega arith)) (accepted (parse_v2 file.content) s e)
  where
    accepted :
        (h : Qcow2Header)
        → is_supported h ≡ true
        → h.version ≡ 3
        → accept file h ≡ some (parse_v3 file.content h)
    accepted h s e = rw (s, e, le→leb 104 file.len l)

-- A header of version 3 as it comes back.
abbrev pub overlapped : Qcow2Header → Qcow2Header
overlapped h = record h {
  snapshots_offset = h.snapshots_offset / 2 ^ 32 * 2 ^ 32 + h.incompatible_features / 2 ^ 32;
}

parsed_v3 :
    (h : Qcow2Header) (f : DiskFile)
    → IsWellFormed h
    → h.version ≡ 3
    → let c = written f (fill_v3 h) 104 in parse_v3 c (parse_v2 c) ≡ overlapped h
parsed_v3 h f v e = λ i. record {
  magic = magic_v3 h f v i;
  version = (version_v3 h f v e ∙ sym e) i;
  backing_file_offset = backing_file_offset_v3 h f v i;
  backing_file_size = backing_file_size_v3 h f v i;
  cluster_bits = cluster_bits_v3 h f v i;
  size = size_v3 h f v i;
  crypt_method = crypt_method_v3 h f v i;
  l1_size = l1_size_v3 h f v i;
  l1_table_offset = l1_table_offset_v3 h f v i;
  refcount_table_offset = refcount_table_offset_v3 h f v i;
  refcount_table_clusters = refcount_table_clusters_v3 h f v i;
  nb_snapshots = nb_snapshots_v3 h f v i;
  snapshots_offset = snapshots_offset_v3 h f v i;
  incompatible_features = incompatible_features_v3 h f v i;
  compatible_features = compatible_features_v3 h f v i;
  autoclear_features = autoclear_features_v3 h f v i;
  refcount_order = refcount_order_v3 h f v i;
  header_length = header_length_v3 h f v i;
}

-- A header that has the defaults of version 2 in the fields of version 3.
abbrev pub HasDefaults : Qcow2Header → Type 0
HasDefaults h =
    (h.incompatible_features ≡ 0)
    × (h.compatible_features ≡ 0)
    × (h.autoclear_features ≡ 0)
    × (h.refcount_order ≡ 4)
    × (h.header_length ≡ 72)

parsed_v2 :
    (h : Qcow2Header) (f : DiskFile)
    → IsWellFormed h
    → h.version ≡ 2
    → HasDefaults h
    → parse_v2 (written f (fill_v2 h) 72) ≡ h
parsed_v2 h f v e d = λ i. record {
  magic = magic_v2 h f v i;
  version = (version_v2 h f v e ∙ sym e) i;
  backing_file_offset = backing_file_offset_v2 h f v i;
  backing_file_size = backing_file_size_v2 h f v i;
  cluster_bits = cluster_bits_v2 h f v i;
  size = size_v2 h f v i;
  crypt_method = crypt_method_v2 h f v i;
  l1_size = l1_size_v2 h f v i;
  l1_table_offset = l1_table_offset_v2 h f v i;
  refcount_table_offset = refcount_table_offset_v2 h f v i;
  refcount_table_clusters = refcount_table_clusters_v2 h f v i;
  nb_snapshots = nb_snapshots_v2 h f v i;
  snapshots_offset = snapshots_offset_v2 h f v i;
  incompatible_features = sym d.0 i;
  compatible_features = sym d.1 i;
  autoclear_features = sym d.2 i;
  refcount_order = sym d.3 i;
  header_length = sym d.4 i;
}

supported_v2 :
    (h : Qcow2Header) (f : DiskFile)
    → IsWellFormed h
    → h.version ≡ 2
    → is_supported (parse_v2 (written f (fill_v2 h) 72)) ≡ true
supported_v2 h f v e =
    (λ i.
      supported (magic_v2 h f v i) (version_v2 h f v e i) (cluster_bits_v2 h f v i)
        (crypt_method_v2 h f v i))
    ∙ supported-IsWellFormed h 2 v (inl refl)

supported_v3 :
    (h : Qcow2Header) (f : DiskFile)
    → IsWellFormed h
    → h.version ≡ 3
    → is_supported (parse_v2 (written f (fill_v3 h) 104)) ≡ true
supported_v3 h f v e =
    (λ i.
      supported (magic_v3 h f v i) (version_v3 h f v e i) (cluster_bits_v3 h f v i)
        (crypt_method_v3 h f v i))
    ∙ supported-IsWellFormed h 3 v (inr refl)

write_to_v2 :
    (h : Qcow2Header) (f : DiskFile)
    → h.version ≡ 2
    → write_to h f ≡ write_all f 0 (load (fill_v2 h) 0 72)
unfolding write_to
write_to_v2 h f e =
    ap
      (λ b.
        if b then write_all f 0 (load (fill_v3 h) 0 104) else write_all f 0 (load (fill_v2 h) 0 72))
      (ap (λ n. n == 3) e)

write_to_v3 :
    (h : Qcow2Header) (f : DiskFile)
    → h.version ≡ 3
    → write_to h f ≡ write_all f 0 (load (fill_v3 h) 0 104)
unfolding write_to
write_to_v3 h f e =
    ap
      (λ b.
        if b then write_all f 0 (load (fill_v3 h) 0 104) else write_all f 0 (load (fill_v2 h) 0 72))
      (ap (λ n. n == 3) e)

-- A header of version 2 whose fields have their widths and supported values, with the defaults in
-- the fields of version 3, is read back as it was after write_to on any file.
pub read_from-write_to_v2 :
    (h : Qcow2Header) (f : DiskFile)
    → IsWellFormed h
    → h.version ≡ 2
    → HasDefaults h
    → read_from (write_to h f) ≡ some h
unfolding write_all
read_from-write_to_v2 h f v e d =
    ap read_from (write_to_v2 h f e)
    ∙ read_from_v2 (write_all f 0 (load (fill_v2 h) 0 72)) (omega arith) (supported_v2 h f v e)
        (version_v2 h f v e)
    ∙ ap some (parsed_v2 h f v e d)

-- A header of version 3 whose fields have their widths and supported values is read back after
-- write_to on any file with every field as it was but snapshots_offset, which comes back with the
-- high half of incompatible_features as its low half: the code gives the two fields overlapping
-- bytes.
pub read_from-write_to_v3 :
    (h : Qcow2Header) (f : DiskFile)
    → IsWellFormed h
    → h.version ≡ 3
    → read_from (write_to h f) ≡ some (overlapped h)
unfolding write_all
read_from-write_to_v3 h f v e =
    ap read_from (write_to_v3 h f e)
    ∙ read_from_v3 (write_all f 0 (load (fill_v3 h) 0 104)) (omega arith) (supported_v3 h f v e)
        (version_v3 h f v e)
    ∙ ap some (parsed_v3 h f v e)
