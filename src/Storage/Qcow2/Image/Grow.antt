-- ===== src/Storage/Qcow2/Image/Grow.antt =====
-- About storage/qcow2.rs: Qcow2File.
-- Images that grow at the end, and in which the bytes of one owner change: the tables stay.
use clone.Prelude.{
  ℕ, ap, ◌∙◌, ◌+◌, ◌*◌, ◌%◌, ◌≤◌, ◌<◌, ◌≡◌, ◌≢◌, sym, subst, inl, inr, List, arith, get_or,
  Option-cases,
}
use native.Mathlib.Decide.{ℕ_discrete}
use clone.Storage.File.{DiskFile}
use clone.Storage.Qcow2.Header.{cluster_size, l2_entries_per_table}
use clone.Storage.Qcow2.Image.{Qcow2File, l2_offset, find}
use clone.Storage.Qcow2.Image.Cluster.{l1_index, l2_index, host_of}
use clone.Storage.Qcow2.Image.Tables.{number_at, number_at_ext}
use clone.Storage.Qcow2.Image.Sound.{
  Owner, block, cluster_size_bounds, Owns, table_offset, slot, slot_cached, slot_missing, IsLaid,
  IsCoherent,
}
use clone.Storage.Qcow2.Image.View.{index_bounds, mapping, mapping-present, mapping-absent}

module _ {B : Type 0} where
  abbrev pub grow : Qcow2File B → DiskFile → List ℕ → ℕ → Qcow2File B
  grow q f t n = record q { file = f; refcount_table = t; next_alloc_offset = n }

  pub record IsGrown (w : Owner) (own own' : ℕ → Owner) (q : Qcow2File B) (f : DiskFile)
      (t : List ℕ) (n : ℕ) : Type 0 where
    pub not_table : (i : ℕ) → Owner.table i ≢ w
    pub forward : q.next_alloc_offset ≤ n
    pub still_whole : f.len ≡ n
    pub still_aligned : n % 512 ≡ 0
    pub same_own : (x : ℕ) → x < q.next_alloc_offset → own' x ≡ own x
    pub same_bytes : (x : ℕ) → x < q.next_alloc_offset → own x ≢ w → f.content x ≡ q.file.content x
    pub still_blocks :
        (j : ℕ) → get_or t j 0 ≢ 0 → Owns own' (cluster_size q.header) n (get_or t j 0) block

  pub Owns-grown :
      {w : Owner} {own own' : ℕ → Owner} (q : Qcow2File B) (f : DiskFile) (t : List ℕ)
      (n size offset : ℕ) (u : Owner)
      → IsGrown w own own' q f t n
      → Owns own size q.next_alloc_offset offset u
      → Owns own' size n offset u
  Owns-grown q f t n size offset u g o = record {
    inside = omega (arith, o.inside, g.forward);
    mine = λ k l. g.same_own (offset + k) (omega (arith, o.inside)) ∙ o.mine k l;
  }

  number_grown :
      {w : Owner} {own own' : ℕ → Owner} (q : Qcow2File B) (f : DiskFile) (t : List ℕ) (n i j : ℕ)
      → IsLaid own q
      → IsGrown w own own' q f t n
      → table_offset q i ≢ 0
      → j < l2_entries_per_table q.header
      → number_at f (table_offset q i + j * 8) ≡ number_at q.file (table_offset q i + j * 8)
  number_grown {own} q f t n i j v g p l =
      let sizes = cluster_size_bounds q.header v.sized in
      let o = v.tables i p in
      number_at_ext f q.file (table_offset q i + j * 8) λ k b.
        let x : table_offset q i + (j * 8 + k) ≡ table_offset q i + j * 8 + k = omega arith in
        g.same_bytes (table_offset q i + j * 8 + k) (omega (arith, o.inside, sizes, b, l))
          λ e. g.not_table i (sym (o.mine (j * 8 + k) (omega (arith, sizes, b, l))) ∙ ap own x ∙ e)

  pub slot_grown :
      {w : Owner} {own own' : ℕ → Owner} (q : Qcow2File B) (f : DiskFile) (t : List ℕ) (n i j : ℕ)
      → IsLaid own q
      → IsGrown w own own' q f t n
      → table_offset q i ≢ 0
      → j < l2_entries_per_table q.header
      → slot (grow q f t n) i j ≡ slot q i j
  slot_grown q f t n i j v g p l = elim (Option-cases (find i q.l2_cache)) [
    | inl out ↦
        slot_missing (grow q f t n) i j out
        ∙ number_grown q f t n i j v g p l
        ∙ sym (slot_missing q i j out)
    | inr (e, at) ↦ slot_cached (grow q f t n) i j e at ∙ sym (slot_cached q i j e at)
  ]

  pub IsGrown-IsLaid :
      {w : Owner} {own own' : ℕ → Owner} (q : Qcow2File B) (f : DiskFile) (t : List ℕ) (n : ℕ)
      → IsLaid own q
      → IsGrown w own own' q f t n
      → IsLaid own' (grow q f t n)
  IsGrown-IsLaid {own} {own'} q f t n v g = record {
    sized = v.sized;
    l1_len = v.l1_len;
    l1_small = v.l1_small;
    small = v.small;
    covers = v.covers;
    whole = g.still_whole;
    aligned = g.still_aligned;
    begun = omega (arith, g.forward, v.begun);
    tables = λ i p.
        Owns-grown q f t n (cluster_size q.header) (table_offset q i) (Owner.table i) g
          (v.tables i p);
    blocks = g.still_blocks;
    fits = λ i j p l. rw (slot_grown q f t n i j v g p l) (v.fits i j p l);
    plain = λ i j p l. rw (slot_grown q f t n i j v g p l) (v.plain i j p l);
    guests = λ i j p l z.
        let e = slot_grown q f t n i j v g p l in
        subst (λ entry. Owns own' (cluster_size q.header) n (l2_offset entry) (Owner.guest i j))
          (sym e)
          (Owns-grown q f t n (cluster_size q.header) (l2_offset (slot q i j)) (Owner.guest i j) g
            (v.guests i j p l (λ w. z (ap (λ entry. l2_offset entry) e ∙ w))));
  }

  pub IsGrown-IsCoherent :
      {w : Owner} {own own' : ℕ → Owner} (q : Qcow2File B) (f : DiskFile) (t : List ℕ) (n : ℕ)
      → IsLaid own q
      → IsGrown w own own' q f t n
      → IsCoherent q
      → IsCoherent (grow q f t n)
  IsGrown-IsCoherent q f t n v g h i e at =
      let w = h i e at in
      record {
        present = w.present;
        in_place = w.in_place;
        full = w.full;
        all64 = w.all64;
        clean = λ d j l. w.clean d j l ∙ sym (number_grown q f t n i j v g w.present l);
      }

  pub mapping_grown :
      {w : Owner} {own own' : ℕ → Owner} (q : Qcow2File B) (f : DiskFile) (t : List ℕ) (n x : ℕ)
      → IsLaid own q
      → IsGrown w own own' q f t n
      → x < q.header.size
      → mapping (grow q f t n) x ≡ mapping q x
  mapping_grown q f t n x v g l =
      let bounds = index_bounds q.header x v.sized v.covers l in
      let r = grow q f t n in
      elim (ℕ_discrete (table_offset q (l1_index q.header x)) 0) [
        | yes z ↦ mapping-absent r x z ∙ sym (mapping-absent q x z)
        | no p ↦
            mapping-present r x p
            ∙ ap (λ s. host_of s)
                (slot_grown q f t n (l1_index q.header x) (l2_index q.header x) v g p bounds.1)
            ∙ sym (mapping-present q x p)
      ]

  pub IsGrown-trans :
      {w : Owner} {own own' own'' : ℕ → Owner} (q : Qcow2File B) (f f' : DiskFile) (t t' : List ℕ)
      (n n' : ℕ)
      → IsGrown w own own' q f t n
      → IsGrown w own' own'' (grow q f t n) f' t' n'
      → IsGrown w own own'' q f' t' n'
  IsGrown-trans q f f' t t' n n' g h = record {
    not_table = g.not_table;
    forward = omega (arith, g.forward, h.forward);
    still_whole = h.still_whole;
    still_aligned = h.still_aligned;
    same_own = λ x l. h.same_own x (omega (arith, g.forward)) ∙ g.same_own x l;
    same_bytes = λ x l ne.
        h.same_bytes x (omega (arith, g.forward)) (λ e. ne (sym (g.same_own x l) ∙ e))
        ∙ g.same_bytes x l ne;
    still_blocks = h.still_blocks;
  }
