-- ===== src/Storage/Qcow2/Image/Reading.antt =====
-- About storage/qcow2.rs: Qcow2File.
-- Reads: what is read is what the guest's disk holds, and the disk stays as it is.
use clone.Prelude.{
  ℕ, ap, ◌∙◌, ◌+◌, ◌%◌, ◌^◌, ◌≤◌, ◌<◌, ◌≡◌, refl, sym, subst, inl, inr, Option, none, some, List,
  true, arith, leb, Option-cases, replicate,
}
use native.Mathlib.Nat.{mod-lt, mod-eq_of_lt}
use clone.Memory.Guest.{add64}
use clone.Memory.Store.{load}
use clone.Storage.File.{read_exact}
use clone.Storage.Reply.{Reply, done, after}
use clone.Storage.Qcow2.Header.{cluster_size}
use clone.Storage.Qcow2.Image.{Qcow2File, M}
use clone.Storage.Qcow2.Image.Cluster.{l1_index, l2_index, translate_cluster}
use clone.Storage.Qcow2.Image.Io.{put_backing, read_unallocated, read_host, read_chunk}
use clone.Storage.Qcow2.Image.Tables.{load_ext}
use clone.Storage.Qcow2.Image.Sound.{Owner, cluster_size_bounds, slot}
use clone.Storage.Qcow2.Image.Same.{change, IsSame-IsLaid}
use clone.Storage.Qcow2.Image.View.{mapping, IsTranslated, translate-IsTranslated}
use clone.Storage.Qcow2.Image.Disk.{
  IsMapped, mapping-IsMapped, backing_byte, guest_byte, guest_byte-mapping, guest_byte-change,
  mapping-change,
}
use clone.Storage.Qcow2.Image.Reads.{
  replicate-load, l2_offset_bound, IsLaid-rebacked, IsCoherent-rebacked, mapping_rebacked,
  load-mapped, load-unmapped,
}
use clone.Storage.Qcow2.Image.Contract.{IsDisk, IsSound, IsRead}

module _ {B : Type 0} (read : B → ℕ → ℕ → B × Reply (List ℕ)) (peek : B → ℕ → ℕ) (limit : B → ℕ)
    (Good : B → Type 0) (top : ℕ) (disk : IsDisk read peek limit Good) where
  pub IsSound-change :
      {own : ℕ → Owner} (q : Qcow2File B) (pos : ℕ) (t : IsTranslated own q pos)
      → IsSound peek limit Good top own q
      → IsSound peek limit Good top own (change q t.file_t t.cache_t t.count_t)
  IsSound-change q pos t s = record {
    laid = IsSame-IsLaid s.laid t.same_t;
    coherent = t.same_t.coherent;
    backed = s.backed;
    reach = s.reach;
  }

  -- A cluster that is mapped.
  read_host-IsRead :
      {own : ℕ → Owner} (q : Qcow2File B) (pos n h : ℕ)
      → IsSound peek limit Good top own q
      → pos < q.header.size
      → pos % cluster_size q.header + n ≤ cluster_size q.header
      → mapping q pos ≡ some h
      → IsRead peek limit Good top own q
          (read_host read (add64 h (pos % cluster_size q.header)) n)
          (load (guest_byte peek q) pos n)
  unfolding read_exact
  read_host-IsRead {own} q pos n h s l room at =
      let c = cluster_size q.header in
      let m : IsMapped own q pos h = mapping-IsMapped q pos h s.laid l at in
      let sizes = cluster_size_bounds q.header s.laid.sized in
      let k : pos % c < c = mod-lt pos (omega (arith, sizes)) in
      let below : h < 2 ^ 62 =
        rw (sym m.named)
          (l2_offset_bound (slot q (l1_index q.header pos) (l2_index q.header pos))) in
      let wrap : add64 h (pos % c) ≡ h + pos % c = mod-eq_of_lt (omega (arith, below, k, sizes)) in
      let inside : leb (h + pos % c + n) q.file.len ≡ true =
        rw s.laid.whole (ground (arith, m.held.inside, room)) in
      record {
        image = q;
        ends = rw (read_host, wrap, inside, load-mapped peek q pos n h at room) refl;
        sound = s;
        same_header = refl;
        same_disk = λ x l. refl;
      }

  rebacked_byte :
      (q : Qcow2File B) (b b' : B) (x : ℕ)
      → q.backing ≡ some b
      → peek b' x ≡ peek b x
      → guest_byte peek (record q { backing = some b' }) x ≡ guest_byte peek q x
  rebacked_byte q b b' x at e = elim (Option-cases (mapping q x)) [
    | inl z ↦
        guest_byte-mapping peek (record q { backing = some b' }) x none
          (mapping_rebacked q (some b') x ∙ z)
        ∙ e
        ∙ ap (λ o. backing_byte peek o x) (sym at)
        ∙ sym (guest_byte-mapping peek q x none z)
    | inr (h, m) ↦
        guest_byte-mapping peek (record q { backing = some b' }) x (some h)
          (mapping_rebacked q (some b') x ∙ m)
        ∙ sym (guest_byte-mapping peek q x (some h) m)
  ]

  put-IsRead :
      {own : ℕ → Owner} (q : Qcow2File B) (pos n : ℕ) (b : B)
      → IsSound peek limit Good top own q
      → pos + n ≤ q.header.size
      → q.backing ≡ some b
      → IsRead peek limit Good top own q
          (λ q'. put_backing read q' (read b pos n))
          (load (peek b) pos n)
  put-IsRead {own} q pos n b s l at =
      let (good, long) = s.backed b at in
      let r = disk.serves b pos n good (omega (arith, s.reach)) in
      record {
        image = record q { backing = some r.state };
        ends = ap (put_backing read q) r.answers;
        sound = record {
          laid = IsLaid-rebacked q (some r.state) s.laid;
          coherent = IsCoherent-rebacked q (some r.state) s.coherent;
          backed = λ b' e.
              subst (λ b. Good b × (top ≤ limit b)) (same_some e) (r.good, rw r.same_limit long);
          reach = s.reach;
        };
        same_header = refl;
        same_disk =
            λ x lx. rebacked_byte q b r.state x at (r.same_bytes x (omega (arith, s.reach)));
      }
    where
      same_some : {b b' : B} → some b ≡ some b' → b ≡ b'
      same_some e = cc

  read_unallocated-IsRead :
      {own : ℕ → Owner} (q : Qcow2File B) (pos n : ℕ)
      → IsSound peek limit Good top own q
      → pos + n ≤ q.header.size
      → pos % cluster_size q.header + n ≤ cluster_size q.header
      → mapping q pos ≡ none
      → IsRead peek limit Good top own q
          (read_unallocated read pos n)
          (load (guest_byte peek q) pos n)
  unfolding read_unallocated
  read_unallocated-IsRead {own} q pos n s l room at =
      let same = load-unmapped peek q pos n at room in
      elim (Option-cases q.backing) [
        | inl alone ↦ record {
          image = q;
          ends =
              ap
                (λ o. elim o [
                  | none ↦ (q, done (replicate n 0))
                  | some b ↦ put_backing read q (read b pos n)
                ])
                alone
              ∙ ap (λ bytes. (q, done bytes))
                  (replicate-load n pos
                    ∙ ap (λ o. load (backing_byte peek o) pos n) (sym alone)
                    ∙ same);
          sound = s;
          same_header = refl;
          same_disk = λ x l. refl;
        }
        | inr (b, over) ↦
            let r = put-IsRead q pos n b s l over in
            record {
              image = r.image;
              ends =
                  (let e : read_unallocated read pos n q ≡ put_backing read q (read b pos n) =
                      rw (read_unallocated, over) refl in
                    e)
                  ∙ r.ends
                  ∙ ap (λ bytes. (r.image, done bytes))
                      (ap (λ o. load (backing_byte peek o) pos n) (sym over) ∙ same);
              sound = r.sound;
              same_header = r.same_header;
              same_disk = r.same_disk;
            }
      ]

  pub IsRead-then :
      {A C : Type 0} {own : ℕ → Owner} (q : Qcow2File B) (m : M B A) (f : A → M B C) (a : A) (c : C)
      (r : IsRead peek limit Good top own q m a)
      → IsRead peek limit Good top own r.image (f a) c
      → IsRead peek limit Good top own q (λ q'. after (m q') f) c
  IsRead-then q m f a c r s = record {
    image = s.image;
    ends = ap (λ t. after t f) r.ends ∙ s.ends;
    sound = s.sound;
    same_header = s.same_header ∙ r.same_header;
    same_disk = λ x l. s.same_disk x (rw r.same_header l) ∙ r.same_disk x l;
  }

  pub translate-IsRead :
      {own : ℕ → Owner} (q : Qcow2File B) (pos : ℕ)
      → IsSound peek limit Good top own q
      → pos < q.header.size
      → IsRead peek limit Good top own q (translate_cluster pos) (mapping q pos)
  translate-IsRead q pos s l =
      let t = translate-IsTranslated q pos s.laid s.coherent l in
      record {
        image = change q t.file_t t.cache_t t.count_t;
        ends = t.ends_t;
        sound = IsSound-change q pos t s;
        same_header = refl;
        same_disk =
            λ x lx. guest_byte-change peek q x t.file_t t.cache_t t.count_t s.laid t.same_t lx;
      }

  abbrev chunk_from : Qcow2File B → ℕ → ℕ → Option ℕ → M B (List ℕ)
  chunk_from q pos n (some h) = read_host read (add64 h (pos % cluster_size q.header)) n
  chunk_from q pos n none = read_unallocated read pos n

  -- The chunk, from where it is kept, in the image that the translation leaves.
  chunk_from-IsRead :
      {own : ℕ → Owner} (q : Qcow2File B) (pos n : ℕ)
      → IsSound peek limit Good top own q
      → pos < q.header.size
      → pos + n ≤ q.header.size
      → pos % cluster_size q.header + n ≤ cluster_size q.header
      → IsRead peek limit Good top own q
          (chunk_from q pos n (mapping q pos))
          (load (guest_byte peek q) pos n)
  chunk_from-IsRead {own} q pos n s l long room = elim (Option-cases (mapping q pos)) [
    | inl z ↦
        subst
          (λ o.
            IsRead peek limit Good top own q (chunk_from q pos n o)
              (load (guest_byte peek q) pos n))
          (sym z) (read_unallocated-IsRead q pos n s long room z)
    | inr (h, at) ↦
        subst
          (λ o.
            IsRead peek limit Good top own q (chunk_from q pos n o)
              (load (guest_byte peek q) pos n))
          (sym at) (read_host-IsRead q pos n h s l room at)
  ]

  pub read_chunk-IsRead :
      {own : ℕ → Owner} (q : Qcow2File B) (pos n : ℕ)
      → IsSound peek limit Good top own q
      → pos < q.header.size
      → pos + n ≤ q.header.size
      → pos % cluster_size q.header + n ≤ cluster_size q.header
      → IsRead peek limit Good top own q (read_chunk read pos n) (load (guest_byte peek q) pos n)
  unfolding read_chunk
  read_chunk-IsRead {own} q pos n s l long room =
      let t = translate-IsTranslated q pos s.laid s.coherent l in
      let q' = change q t.file_t t.cache_t t.count_t in
      let e = mapping-change q pos t.file_t t.cache_t t.count_t s.laid t.same_t l in
      let r = chunk_from-IsRead q' pos n (IsSound-change q pos t s) l long room in
      record {
        image = r.image;
        ends =
            (ap (λ p. after p (chunk_from q pos n)) t.ends_t)
            ∙ ap (λ o. chunk_from q pos n o q') (sym e)
            ∙ r.ends
            ∙ ap (λ bytes. (r.image, done bytes))
                (load_ext (guest_byte peek q') (guest_byte peek q) pos n λ k lk.
                  guest_byte-change peek q (pos + k) t.file_t t.cache_t t.count_t s.laid t.same_t
                    (omega arith));
        sound = r.sound;
        same_header = r.same_header;
        same_disk = λ x lx.
            r.same_disk x lx
            ∙ guest_byte-change peek q x t.file_t t.cache_t t.count_t s.laid t.same_t lx;
      }
