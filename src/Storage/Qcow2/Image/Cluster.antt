-- ===== src/Storage/Qcow2/Image/Cluster.antt =====
-- storage/qcow2.rs: from guest offsets to host offsets, by the L1 table and the L2 tables.
use clone.Prelude.{
  ℕ, ◌/◌, ◌%◌, ◌^◌, Option, none, some, true, not, ltb, ◌==◌, if◌then◌else◌, get_elem?, set,
  replicate, length,
}
use clone.Storage.Reply.{error, panicked, done, failed, ◌>>=◌, ◌>>◌, pure, fail}
use clone.Storage.Qcow2.Header.{Qcow2Header, cluster_size, l2_entries_per_table}
use clone.Storage.Qcow2.Image.{
  Qcow2File, M, l1_offset, l2_offset, is_compressed, copied, find, insert, admit, ensure_l2_cached,
  unwrap,
}
use clone.Storage.Qcow2.Image.Refcount.{alloc_cluster}

abbrev pub l1_index : Qcow2Header → ℕ → ℕ
l1_index h guest_offset = guest_offset / cluster_size h / l2_entries_per_table h

abbrev pub l2_index : Qcow2Header → ℕ → ℕ
l2_index h guest_offset = guest_offset / cluster_size h % l2_entries_per_table h

-- The host offset that an L2 entry names: `none` for an unallocated cluster.
abbrev pub host_of : ℕ → Option ℕ
host_of entry = if l2_offset entry == 0 then none else some (l2_offset entry)

module _ {B : Type 0} where
  -- The cached table, and its entry at an index.
  abbrev pub cached_entry : ℕ → ℕ → M B ℕ
  cached_entry l1_idx l2_idx q = elim (find l1_idx q.l2_cache) [
    | none ↦ (q, failed panicked)
    | some e ↦ unwrap (get_elem? e.entries l2_idx) q
  ]

  unfoldable pub get_l2_entry : ℕ → ℕ → ℕ → M B ℕ
  get_l2_entry l1_idx l2_table_offset l2_idx =
      ensure_l2_cached l1_idx l2_table_offset >> cached_entry l1_idx l2_idx

  abbrev pub checked_host : ℕ → M B (Option ℕ)
  checked_host entry =
      if entry == 0
      then pure none
      else if is_compressed entry
      then fail error
      else pure (host_of entry)

  -- An index is cast to u32 for the check, and used as it is.
  unfoldable pub translate_cluster : ℕ → M B (Option ℕ)
  unfolding get_l2_entry
  translate_cluster guest_offset q =
      let i = l1_index q.header guest_offset in
      if not (ltb (i % 2 ^ 32) q.header.l1_size)
      then (q, failed error)
      else elim (get_elem? q.l1_table i) [
        | none ↦ (q, failed panicked)
        | some l1_entry ↦
            if l1_offset l1_entry == 0
            then (q, done none)
            else (do
              entry ←
                  get_l2_entry (i % 2 ^ 32) (l1_offset l1_entry) (l2_index q.header guest_offset)
              checked_host entry)
                q
      ]

  -- A new L2 table for an empty L1 entry.
  unfoldable pub new_l2_table : ℕ → Qcow2File B → Qcow2File B
  unfolding alloc_cluster
  new_l2_table i q =
      let (q', offset) = alloc_cluster q in
      admit (i % 2 ^ 32) (replicate (l2_entries_per_table q.header) 0) true offset
        (record q' { l1_table = set q'.l1_table i (copied offset) })

  abbrev pub ensure_l2_table : ℕ → ℕ → M B (Unit {0})
  ensure_l2_table i l1_entry q =
      if l1_offset l1_entry == 0
      then (new_l2_table i q, done tt)
      else ensure_l2_cached (i % 2 ^ 32) (l1_offset l1_entry) q

  abbrev pub set_cached : ℕ → ℕ → ℕ → M B (Unit {0})
  set_cached l1_idx l2_idx value q = elim (find l1_idx q.l2_cache) [
    | none ↦ (q, failed panicked)
    | some e ↦
        if ltb l2_idx (length e.entries)
        then (
          record q {
            l2_cache =
                insert l1_idx (record e { entries = set e.entries l2_idx value; dirty = true })
                  q.l2_cache;
          },
          done tt,
        )
        else (q, failed panicked)
  ]

  unfoldable pub set_l2_entry : ℕ → ℕ → M B (Unit {0})
  unfolding new_l2_table
  set_l2_entry guest_offset value q =
      let i = l1_index q.header guest_offset in
      elim (get_elem? q.l1_table i) [
        | none ↦ (q, failed panicked)
        | some l1_entry ↦
            (ensure_l2_table i l1_entry
                >> set_cached (i % 2 ^ 32) (l2_index q.header guest_offset) value)
              q
      ]
