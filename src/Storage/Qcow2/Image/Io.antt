-- ===== src/Storage/Qcow2/Image/Io.antt =====
-- storage/qcow2.rs: reads and writes of the virtual disk, flush, and open. A backing file is read
-- by the parameter `read_backing`.
use clone.Prelude.{
  ℕ, zero, suc, ◌+◌, ◌-◌, ◌%◌, ◌^◌, none, some, List, [], ◌∷◌, ◌++◌, ltb, leb, if◌then◌else◌,
  length, min, take, drop, replicate,
}
use clone.Memory.Guest.{add64}
use clone.Storage.File.{read_exact, write_all}
use clone.Storage.Reply.{Reply, error, exhausted, done, failed, ◌>>=◌, ◌>>◌, pure, modify}
use clone.Storage.Qcow2.Header.{Qcow2Header, cluster_size}
use clone.Storage.Qcow2.Image.{Qcow2File, M, copied, ok_or_error}
use clone.Storage.Qcow2.Image.Refcount.{alloc_cluster}
use clone.Storage.Qcow2.Image.Cluster.{translate_cluster, set_l2_entry}

-- Up to the end of the cluster, or of what is asked for.
abbrev pub chunk_len : Qcow2Header → ℕ → ℕ → ℕ
chunk_len h pos remaining = min (cluster_size h - pos % cluster_size h) remaining

module _ {B : Type 0} (read_backing : B → ℕ → ℕ → B × Reply (List ℕ)) where
  abbrev pub put_backing : Qcow2File B → B × Reply (List ℕ) → Qcow2File B × Reply (List ℕ)
  put_backing q (b, r) = (record q { backing = some b }, r)

  -- What an unallocated stretch reads as.
  unfoldable pub read_unallocated : ℕ → ℕ → M B (List ℕ)
  read_unallocated pos n q = elim q.backing [
    | none ↦ (q, done (replicate n 0))
    | some b ↦ put_backing q (read_backing b pos n)
  ]

  abbrev pub read_host : ℕ → ℕ → M B (List ℕ)
  read_host offset n q = ok_or_error (read_exact q.file offset n) q

  -- One round of the loop of read_at, on a chunk that lies in one cluster.
  unfoldable pub read_chunk : ℕ → ℕ → M B (List ℕ)
  unfolding translate_cluster read_unallocated
  read_chunk pos n q =
      (do
        host ← translate_cluster pos
        elim host [
          | some h ↦ read_host (add64 h (pos % cluster_size q.header)) n
          | none ↦ read_unallocated pos n
        ])
        q

  -- Every round takes at least one byte: the length is fuel enough.
  unfoldable pub read_loop : ℕ → ℕ → ℕ → M B (List ℕ)
  read_loop fuel pos zero q = (q, done [])
  read_loop zero pos (suc n) q = (q, failed exhausted)
  read_loop (suc fuel) pos (suc n) q =
      let len = chunk_len q.header pos (suc n) in
      (do
        bytes ← read_chunk pos len
        rest ← read_loop fuel (pos + len) (suc n - len)
        pure (bytes ++ rest))
        q

  unfoldable pub read_at : ℕ → ℕ → M B (List ℕ)
  unfolding read_loop
  read_at offset n q =
      if leb (2 ^ 64) (offset + n)
      then (q, failed error)
      else if leb (offset + n) q.header.size
      then read_loop n offset n q
      else (q, failed error)

  -- The old contents of a cluster that is written in part.
  abbrev pub old_cluster : ℕ → M B (List ℕ)
  old_cluster cluster_start q = elim q.backing [
    | none ↦ (q, done (replicate (cluster_size q.header) 0))
    | some b ↦ put_backing q (read_backing b cluster_start (cluster_size q.header))
  ]

  abbrev pub write_host : ℕ → List ℕ → Qcow2File B → Qcow2File B
  write_host offset bytes q = record q { file = write_all q.file offset bytes }

  abbrev pub fill_cluster : ℕ → ℕ → ℕ → M B (Unit {0})
  fill_cluster pos n offset q =
      if ltb n (cluster_size q.header)
      then (do
        old ← old_cluster (pos - pos % cluster_size q.header)
        modify (write_host offset old))
          q
      else (q, done tt)

  -- A new cluster for the guest cluster of `pos`, of which `n` bytes will be written.
  unfoldable pub allocate_for : ℕ → ℕ → M B ℕ
  unfolding alloc_cluster set_l2_entry
  allocate_for pos n q =
      let (q', offset) = alloc_cluster q in
      (do fill_cluster pos n offset; set_l2_entry pos (copied offset); pure offset) q'

  unfoldable pub write_chunk : ℕ → List ℕ → M B (Unit {0})
  unfolding translate_cluster allocate_for
  write_chunk pos bytes q =
      (do
        host ← translate_cluster pos
        offset ← elim host [ some h ↦ pure h | none ↦ allocate_for pos (length bytes) ]
        modify (write_host (add64 offset (pos % cluster_size q.header)) bytes))
        q

  unfoldable pub write_loop : ℕ → ℕ → List ℕ → M B (Unit {0})
  write_loop fuel pos [] q = (q, done tt)
  write_loop zero pos (b ∷ bytes) q = (q, failed exhausted)
  write_loop (suc fuel) pos (b ∷ bytes) q =
      let len = chunk_len q.header pos (length (b ∷ bytes)) in
      (write_chunk pos (take len (b ∷ bytes)) >> write_loop fuel (pos + len) (drop len (b ∷ bytes)))
        q

  unfoldable pub write_at : ℕ → List ℕ → M B (Unit {0})
  unfolding write_loop
  write_at offset bytes q =
      if leb (2 ^ 64) (offset + length bytes)
      then (q, failed error)
      else if leb (offset + length bytes) q.header.size
      then write_loop (length bytes) offset bytes q
      else (q, failed error)
