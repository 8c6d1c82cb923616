-- ===== src/Storage/Qcow2/Image/Refcount.antt =====
-- storage/qcow2.rs: refcounts, and the allocation of clusters at the end of the file.
use clone.Prelude.{
  ℕ, suc, ◌+◌, ◌-◌, ◌*◌, ◌/◌, ◌%◌, ◌^◌, List, ◌++◌, leb, ◌==◌, if◌then◌else◌, length, get_or, set,
  replicate, to_be, from_be, none, some,
}
use clone.Memory.Guest.{add64}
use clone.Storage.File.{write_all, set_len, read_exact}
use clone.Storage.Reply.{error, done, failed, ◌>>=◌, ◌>>◌, pure, fail, modify}
use clone.Storage.Qcow2.Header.{Qcow2Header, cluster_size}
use clone.Storage.Qcow2.Image.{Qcow2File, M}

-- 16-bit refcounts.
abbrev pub refcounts_per_block : Qcow2Header → ℕ
refcounts_per_block h = cluster_size h / 2

abbrev pub rc_table_index : Qcow2Header → ℕ → ℕ
rc_table_index h cluster_offset = cluster_offset / cluster_size h / refcounts_per_block h

abbrev pub rc_block_index : Qcow2Header → ℕ → ℕ
rc_block_index h cluster_offset = cluster_offset / cluster_size h % refcounts_per_block h

-- Zeros are pushed until the index is in range.
abbrev pub grown : List ℕ → ℕ → List ℕ
grown table index = table ++ replicate (suc index - length table) 0

module _ {B : Type 0} where
  unfoldable pub get_refcount : ℕ → M B ℕ
  get_refcount cluster_offset q =
      let block_offset = get_or q.refcount_table (rc_table_index q.header cluster_offset) 0 in
      if block_offset == 0
      then (q, done 0)
      else elim (read_exact q.file (add64 block_offset (rc_block_index q.header cluster_offset * 2))
          2) [ none ↦ (q, failed error) | some bytes ↦ (q, done (from_be bytes)) ]

  abbrev pub write_refcount : ℕ → ℕ → ℕ → Qcow2File B → Qcow2File B
  write_refcount block_offset index refcount q = record q {
    file = write_all q.file (add64 block_offset (index * 2)) (to_be 2 refcount);
  }

  -- The file grows by one cluster.
  abbrev pub extend : Qcow2File B → Qcow2File B
  extend q =
      let next = add64 q.next_alloc_offset (cluster_size q.header) in
      record q { file = set_len q.file next; next_alloc_offset = next }

  -- A new refcount block at the end of the file, for entry `index` of the table. Its own refcount
  -- is set if it covers itself.
  unfoldable pub add_refcount_block : ℕ → Qcow2File B → Qcow2File B
  add_refcount_block index q =
      let block_offset = q.next_alloc_offset in
      let q' = record (extend q) { refcount_table = set q.refcount_table index block_offset } in
      if rc_table_index q.header block_offset == index
      then write_refcount block_offset (rc_block_index q.header block_offset) 1 q'
      else q'

  unfoldable pub ensure_refcount_block : ℕ → Qcow2File B → Qcow2File B
  unfolding add_refcount_block
  ensure_refcount_block index q =
      let q' = record q { refcount_table = grown q.refcount_table index } in
      if get_or q'.refcount_table index 0 == 0 then add_refcount_block index q' else q'

  unfoldable pub set_refcount : ℕ → ℕ → Qcow2File B → Qcow2File B
  unfolding ensure_refcount_block
  set_refcount cluster_offset refcount q =
      let index = rc_table_index q.header cluster_offset in
      let q' = ensure_refcount_block index q in
      write_refcount (get_or q'.refcount_table index 0) (rc_block_index q.header cluster_offset)
        refcount q'

  unfoldable pub refcount_increment : ℕ → M B ℕ
  unfolding get_refcount set_refcount
  refcount_increment cluster_offset = do
    current ← get_refcount cluster_offset
    if leb (2 ^ 16) (current + 1)
        then fail error
        else modify (set_refcount cluster_offset (current + 1)) >> pure (current + 1)

  unfoldable pub refcount_decrement : ℕ → M B ℕ
  unfolding get_refcount set_refcount
  refcount_decrement cluster_offset = do
    current ← get_refcount cluster_offset
    if current == 0
        then fail error
        else modify (set_refcount cluster_offset (current - 1)) >> pure (current - 1)

  -- A new cluster at the end of the file, and its offset.
  unfoldable pub alloc_cluster : Qcow2File B → Qcow2File B × ℕ
  unfolding set_refcount
  alloc_cluster q = (set_refcount q.next_alloc_offset 1 (extend q), q.next_alloc_offset)
