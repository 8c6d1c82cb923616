-- ===== src/Storage/Qcow2/Image/Flush.antt =====
-- storage/qcow2.rs: flush, which writes the dirty tables, the L1 table and the refcount table.
use clone.Prelude.{ℕ, zero, suc, ◌*◌, ◌%◌, ◌^◌, List, [], ◌∷◌, ltb, if◌then◌else◌, length}
use clone.Memory.Guest.{add64}
use clone.Storage.File.{set_len}
use clone.Storage.Reply.{done, ◌>>◌, modify}
use clone.Storage.Qcow2.Header.{cluster_size, write_to}
use clone.Storage.Qcow2.Layout.{div_round_up}
use clone.Storage.Qcow2.Image.{Qcow2File, Cache, M, write_table, flush_l2_table}
use clone.Storage.Qcow2.Image.Refcount.{set_refcount}

-- The dirty tables, in the order of the map.
abbrev pub dirty_indices : Cache → List ℕ
dirty_indices [] = []
dirty_indices ((i, e) ∷ cache) = if e.dirty then i ∷ dirty_indices cache else dirty_indices cache

module _ {B : Type 0} where
  unfoldable pub flush_tables : List ℕ → M B (Unit {0})
  flush_tables [] q = (q, done tt)
  flush_tables (i ∷ indices) q = (flush_l2_table i >> flush_tables indices) q

  unfoldable pub write_l1_table : Qcow2File B → Qcow2File B
  write_l1_table q = record q { file = write_table q.file q.header.l1_table_offset q.l1_table }

  -- Refcounts of 1 for `n` clusters from an offset on.
  unfoldable pub count_clusters : ℕ → ℕ → Qcow2File B → Qcow2File B
  count_clusters zero offset q = q
  count_clusters (suc n) offset q =
      count_clusters n (add64 offset (cluster_size q.header)) (set_refcount offset 1 q)

  abbrev pub rc_table_clusters_needed : Qcow2File B → ℕ
  rc_table_clusters_needed q =
      div_round_up (length q.refcount_table * 8) (cluster_size q.header) % 2 ^ 32

  -- A table that has outgrown its clusters moves to the end of the file.
  unfoldable pub relocate_refcount_table : Qcow2File B → Qcow2File B
  unfolding count_clusters
  relocate_refcount_table q =
      let needed = rc_table_clusters_needed q in
      let offset = q.next_alloc_offset in
      let next = add64 offset (needed * cluster_size q.header) in
      let q₁ = record q { next_alloc_offset = next; file = set_len q.file next } in
      let q₂ = count_clusters needed offset q₁ in
      let header = record q₂.header {
        refcount_table_offset = offset;
        refcount_table_clusters = needed;
      } in
      record q₂ { header = header; file = write_to header q₂.file }

  unfoldable pub write_refcount_table : Qcow2File B → Qcow2File B
  unfolding relocate_refcount_table
  write_refcount_table q =
      let q' =
        if ltb q.header.refcount_table_clusters (rc_table_clusters_needed q)
        then relocate_refcount_table q
        else q in
      record q' { file = write_table q'.file q'.header.refcount_table_offset q'.refcount_table }

  unfoldable pub flush : M B (Unit {0})
  unfolding flush_tables write_l1_table write_refcount_table
  flush q =
      (do
        flush_tables (dirty_indices q.l2_cache)
        modify write_l1_table
        modify write_refcount_table)
        q

  -- The image goes out of scope: it is flushed, and an error is only logged.
  abbrev pub close : Qcow2File B → Qcow2File B
  close q = (flush q).0
