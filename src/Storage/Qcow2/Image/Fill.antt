-- ===== src/Storage/Qcow2/Image/Fill.antt =====
-- About storage/qcow2.rs: Qcow2File.
-- A new cluster that will be written in part is filled with what the guest saw there.
use clone.Prelude.{
  ℕ, zero, suc, ap, ◌∙◌, ◌+◌, ◌-◌, ◌%◌, ◌≤◌, ◌<◌, ◌≡◌, ◌≢◌, refl, sym, subst, inl, inr, Option,
  none, some, List, true, false, arith, length, length-replicate, get_or, replicate, ltb,
  Option-cases,
}
use clone.Memory.Store.{Store, load, length-load}
use clone.Storage.File.{DiskFile, write_all}
use clone.Storage.Reply.{Reply, done, after, modify}
use clone.Storage.Qcow2.Header.{cluster_size}
use clone.Storage.Qcow2.Image.{Qcow2File}
use clone.Storage.Qcow2.Image.Cluster.{l1_index, l2_index}
use clone.Storage.Qcow2.Image.Io.{put_backing, old_cluster, write_host, fill_cluster}
use clone.Storage.Qcow2.Image.Sound.{Owner, Holds, IsLaid, IsCoherent}
use clone.Storage.Qcow2.Image.View.{mapping}
use clone.Storage.Qcow2.Image.Disk.{backing_byte}
use clone.Storage.Qcow2.Image.Reads.{IsLaid-rebacked, IsCoherent-rebacked, mapping_rebacked}
use clone.Storage.Qcow2.Image.Contract.{IsDisk, IsSound}
use clone.Storage.Qcow2.Image.Grow.{
  grow, IsGrown, IsGrown-IsLaid, IsGrown-IsCoherent, mapping_grown,
}
use clone.Storage.Qcow2.Image.GuestWrite.{write-IsGrown, content-write_all}

get_or-load : (s : Store) (i n k : ℕ) → k < n → get_or (load s i n) k 0 ≡ s (i + k)
get_or-load s i zero k l = absurd (omega arith)
get_or-load s i (suc n) zero l = ap s (omega arith)
get_or-load s i (suc n) (suc k) l = get_or-load s (i + 1) n k (omega arith) ∙ ap s (omega arith)

get_or-replicate_zero : (n k : ℕ) → get_or {A = ℕ} (replicate n 0) k 0 ≡ 0
get_or-replicate_zero zero k = refl
get_or-replicate_zero (suc n) zero = refl
get_or-replicate_zero (suc n) (suc k) = get_or-replicate_zero n k

module _ {B : Type 0} where
  -- A whole cluster of the guest's is written.
  whole-IsGrown :
      {own : ℕ → Owner} (q : Qcow2File B) (h i j : ℕ) (bytes : List ℕ)
      → IsLaid own q
      → Holds own q h (Owner.guest i j)
      → length bytes ≡ cluster_size q.header
      → IsGrown
          (Owner.guest i j)
          own
          own
          q
          (write_all q.file h bytes)
          q.refcount_table
          q.next_alloc_offset
  whole-IsGrown {own} q h i j bytes v o long =
      let e : h + 0 ≡ h = omega arith in
      subst
        (λ x.
          IsGrown (Owner.guest i j) own own q (write_all q.file x bytes) q.refcount_table
            q.next_alloc_offset)
        e (write-IsGrown q h 0 i j bytes v o (omega (arith, long)))

module _ {B : Type 0} (read : B → ℕ → ℕ → B × Reply (List ℕ)) where
  -- The cluster is filled where it is not written whole.
  pub fill_step :
      (q : Qcow2File B) (pos h n : ℕ)
      → n < cluster_size q.header
      → fill_cluster read pos n h q
        ≡ after
            (old_cluster read (pos - pos % cluster_size q.header) q)
            (λ old. modify (write_host read h old))
  fill_step q pos h n l =
      let part : ltb n (cluster_size q.header) ≡ true = ground arith in rw (fill_cluster, part) refl

  -- The old contents.
  abbrev pub old_of : Qcow2File B → ℕ → Option B → Qcow2File B × Reply (List ℕ)
  old_of q start none = (q, done (replicate (cluster_size q.header) 0))
  old_of q start (some b) = put_backing read q (read b start (cluster_size q.header))

module _ {B : Type 0} (read : B → ℕ → ℕ → B × Reply (List ℕ)) (peek : B → ℕ → ℕ) (limit : B → ℕ)
    (Good : B → Type 0) (top : ℕ) (disk : IsDisk read peek limit Good) where
  pub record IsFilled (own : ℕ → Owner) (q : Qcow2File B) (pos h n : ℕ) : Type 0 where
    pub file_f : DiskFile
    pub back_f : Option B
    pub ends_f :
        fill_cluster read pos n h q ≡ (record q { file = file_f; backing = back_f }, done tt)
    pub sound_f : IsSound peek limit Good top own (record q { file = file_f; backing = back_f })
    pub backing_f : (x : ℕ) → x < top → backing_byte peek back_f x ≡ backing_byte peek q.backing x
    pub mapping_f :
        (x : ℕ)
        → x < q.header.size
        → mapping (record q { file = file_f; backing = back_f }) x ≡ mapping q x
    pub others_f :
        (x : ℕ)
        → x < q.next_alloc_offset
        → own x ≢ Owner.guest (l1_index q.header pos) (l2_index q.header pos)
        → file_f.content x ≡ q.file.content x
    pub old_f :
        n < cluster_size q.header
        → (k : ℕ) → k < cluster_size q.header
        → file_f.content (h + k)
          ≡ backing_byte peek q.backing (pos - pos % cluster_size q.header + k)

  -- The old contents are `old`, and the backing file is `o` after they are read.
  filled :
      {own : ℕ → Owner} (q : Qcow2File B) (pos h n : ℕ) (old : List ℕ) (o : Option B)
      → IsLaid own q
      → IsCoherent q
      → q.header.size ≤ top
      → Holds own q h (Owner.guest (l1_index q.header pos) (l2_index q.header pos))
      → length old ≡ cluster_size q.header
      → ((k : ℕ)
          → k < cluster_size q.header
          → get_or old k 0 ≡ backing_byte peek q.backing (pos - pos % cluster_size q.header + k))
      → ((b : B) → o ≡ some b → Good b × (top ≤ limit b))
      → ((x : ℕ) → x < top → backing_byte peek o x ≡ backing_byte peek q.backing x)
      → fill_cluster read pos n h q
        ≡ (record q { file = write_all q.file h old; backing = o }, done tt)
      → IsFilled own q pos h n
  filled {own} q pos h n old o v c reach held long is_old good same ends =
      let f = write_all q.file h old in
      let t = q.refcount_table in
      let e = q.next_alloc_offset in
      let g = whole-IsGrown q h (l1_index q.header pos) (l2_index q.header pos) old v held long in
      record {
        file_f = f;
        back_f = o;
        ends_f = ends;
        sound_f = record {
          laid = IsLaid-rebacked (grow q f t e) o (IsGrown-IsLaid q f t e v g);
          coherent = IsCoherent-rebacked (grow q f t e) o (IsGrown-IsCoherent q f t e v g c);
          backed = good;
          reach = reach;
        };
        backing_f = same;
        mapping_f = λ x lx. mapping_rebacked (grow q f t e) o x ∙ mapping_grown q f t e x v g lx;
        others_f = g.same_bytes;
        old_f = λ l k lk. content-write_all q.file h old k (rw long lk) ∙ is_old k lk;
      }

  pub fill-IsFilled :
      {own : ℕ → Owner} (q : Qcow2File B) (pos h n : ℕ)
      → IsSound peek limit Good top own q
      → pos - pos % cluster_size q.header + cluster_size q.header ≤ top
      → Holds own q h (Owner.guest (l1_index q.header pos) (l2_index q.header pos))
      → n < cluster_size q.header
      → IsFilled own q pos h n
  fill-IsFilled {own} q pos h n s room held l =
      let c = cluster_size q.header in
      let start = pos - pos % c in
      elim (Option-cases q.backing) [
        | inl alone ↦
            filled q pos h n (replicate c 0) q.backing s.laid s.coherent s.reach held
              (length-replicate c 0)
              (λ k lk.
                get_or-replicate_zero c k ∙ ap (λ o. backing_byte peek o (start + k)) (sym alone))
              s.backed (λ x lx. refl)
              (fill_step read q pos h n l
                ∙ ap (λ p. after p (λ old. modify (write_host read h old)))
                    (ap (old_of read q start) alone))
        | inr (b, over) ↦
            let (good, long) = s.backed b over in
            let r = disk.serves b start c good (omega arith) in
            filled q pos h n (load (peek b) start c) (some r.state) s.laid s.coherent s.reach held
              (length-load (peek b) start c)
              (λ k lk.
                get_or-load (peek b) start c k lk
                ∙ ap (λ o. backing_byte peek o (start + k)) (sym over))
              (λ b' e.
                subst (λ b. Good b × (top ≤ limit b)) (same_some e) (r.good, rw r.same_limit long))
              (λ x lx. r.same_bytes x (omega arith) ∙ ap (λ o. backing_byte peek o x) (sym over))
              (fill_step read q pos h n l
                ∙ ap (λ p. after p (λ old. modify (write_host read h old)))
                    (ap (old_of read q start) over ∙ ap (put_backing read q) r.answers))
      ]
    where
      same_some : {b b' : B} → some b ≡ some b' → b ≡ b'
      same_some e = cc

  pub full-IsFilled :
      {own : ℕ → Owner} (q : Qcow2File B) (pos h n : ℕ)
      → IsSound peek limit Good top own q
      → cluster_size q.header ≤ n
      → IsFilled own q pos h n
  full-IsFilled {own} q pos h n s l =
      let whole : ltb n (cluster_size q.header) ≡ false = ground arith in
      record {
        file_f = q.file;
        back_f = q.backing;
        ends_f =
            (let e : fill_cluster read pos n h q ≡ (q, done tt) = rw (fill_cluster, whole) refl in
              e);
        sound_f = s;
        backing_f = λ x lx. refl;
        mapping_f = λ x lx. refl;
        others_f = λ x lx ne. refl;
        old_f = λ lt. absurd (omega arith);
      }
