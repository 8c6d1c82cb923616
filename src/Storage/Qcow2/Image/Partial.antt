-- ===== src/Storage/Qcow2/Image/Partial.antt =====
-- About storage/qcow2.rs: Qcow2File.
-- A first write to a part of a cluster that the backing image does not have whole.
use clone.Prelude.{
  ℕ, ap, ◌∙◌, ◌+◌, ◌-◌, ◌*◌, ◌%◌, ◌^◌, ◌≤◌, ◌<◌, ◌≡◌, refl, inl, inr, none, some, List, false,
  arith, length, Bool-cases,
}
use clone.Storage.Reply.{Reply, done, failed, after, modify}
use clone.Storage.Qcow2.Header.{cluster_size}
use clone.Storage.Qcow2.Image.{Qcow2File, M}
use clone.Storage.Qcow2.Image.Io.{put_backing, write_host, fill_cluster}
use clone.Storage.Qcow2.Image.Sound.{Owner, IsLaid, IsCoherent}
use clone.Storage.Qcow2.Image.View.{mapping}
use clone.Storage.Qcow2.Image.Grow.{grow}
use clone.Storage.Qcow2.Image.{copied}
use clone.Storage.Qcow2.Image.Cluster.{set_l2_entry}
use clone.Storage.Qcow2.Image.Io.{allocate_for}
use clone.Storage.Qcow2.Image.Counted.{alloc-IsAllocated}
use clone.Memory.Guest.{add64}
use clone.Storage.Qcow2.Image.Io.{write_chunk}
use clone.Storage.Qcow2.Image.Same.{change, IsSame-IsLaid}
use clone.Storage.Qcow2.Image.View.{translate-IsTranslated}
use clone.Prelude.{leb}
use clone.Storage.Reply.{error}
use clone.Storage.Qcow2.Image.Io.{read_at}
use clone.Storage.Qcow2.Image.Backing.{BackingFile, qcow2, read_backing_file, put_image}
use clone.Storage.Qcow2.Image.Writing.{place_of_chunk, chunk_step}
use clone.Storage.Qcow2.Image.Fill.{fill_step, old_of}

module _ {B : Type 0} (read : B → ℕ → ℕ → B × Reply (List ℕ)) where
  past_end :
      (base : Qcow2File B) (offset n : ℕ)
      → base.header.size < offset + n
      → read_at read offset n base ≡ (base, failed error)
  unfolding read_at
  past_end base offset n h = elim (Bool-cases (leb (2 ^ 64) (offset + n))) [
    | inl over ↦ rw (read_at, over) refl
    | inr small ↦
        let outside : leb (offset + n) base.header.size ≡ false = ground arith in
        rw (read_at, small, outside) refl
  ]

  fill_fails :
      (q : Qcow2File (BackingFile B)) (base : Qcow2File B) (pos h n : ℕ)
      → q.backing ≡ some (qcow2 base)
      → n < cluster_size q.header
      → base.header.size < pos - pos % cluster_size q.header + cluster_size q.header
      → fill_cluster (read_backing_file read) pos n h q
        ≡ (record q { backing = some (qcow2 base) }, failed error)
  unfolding read_backing_file
  fill_fails q base pos h n over part short =
      let rd = read_backing_file read in
      let start = pos - pos % cluster_size q.header in
      fill_step rd q pos h n part
      ∙ ap (λ p. after p (λ old. modify (write_host rd h old)))
          (ap (old_of rd q start) over
            ∙ ap (λ r. put_backing rd q (put_image read r))
                (past_end base start (cluster_size q.header) short))

  -- On a soundly laid out image over a qcow2 image that ends inside a cluster's range, a first
  -- write to less than that whole cluster fails with an error, with the file longer by at least a
  -- cluster: the old contents are read past the end of the backing image.
  pub partial_write_fails :
      {own : ℕ → Owner} (q : Qcow2File (BackingFile B)) (base : Qcow2File B) (pos : ℕ)
      (bytes : List ℕ)
      → IsLaid own q
      → IsCoherent q
      → pos < q.header.size
      → mapping q pos ≡ none
      → q.backing ≡ some (qcow2 base)
      → base.header.size < pos - pos % cluster_size q.header + cluster_size q.header
      → length bytes < cluster_size q.header
      → q.next_alloc_offset + 2 * cluster_size q.header < 2 ^ 64
      → (r : Qcow2File (BackingFile B)) × (write_chunk (read_backing_file read) pos bytes q
          ≡ (r, failed error))
        × (q.next_alloc_offset + cluster_size q.header ≤ r.next_alloc_offset)
        × (q.file.len + cluster_size q.header ≤ r.file.len)
  unfolding allocate_for
  partial_write_fails {own} q base pos bytes v c l at over short part room =
      let rd = read_backing_file read in
      let n = length bytes in
      let chunk_write : ℕ → List ℕ → ℕ → M (BackingFile B) (Unit {0}) = λ pos bytes offset.
        modify (write_host rd (add64 offset (pos % cluster_size q.header)) bytes) in
      let off = q.next_alloc_offset in
      let t = translate-IsTranslated q pos v c l in
      let q' = change q t.file_t t.cache_t t.count_t in
      let a = alloc-IsAllocated q' Owner.block (IsSame-IsLaid v t.same_t) room in
      let g = grow q' a.file_a a.table_a a.end_a in
      (
        record g { backing = some (qcow2 base) },
        chunk_step rd q pos bytes t
            ∙ ap (λ o. after (place_of_chunk rd pos n o q') (chunk_write pos bytes)) at
            ∙ ap {A = Qcow2File (BackingFile B) × ℕ}
                (λ p.
                  after
                    (after (fill_cluster rd pos n p.1 p.0)
                      λ _ r. after (set_l2_entry pos (copied p.1) r) λ _ r. (r, done p.1))
                    (chunk_write pos bytes))
                a.result_a
            ∙ ap
                (λ p.
                  after
                    (after p λ _ r. after (set_l2_entry pos (copied off) r) λ _ r. (r, done off))
                    (chunk_write pos bytes))
                (fill_fails g base pos off n over part short),
        a.cluster_a.inside,
        omega (arith, a.cluster_a.inside, a.grown_a.still_whole, v.whole),
      )
