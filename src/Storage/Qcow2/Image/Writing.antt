-- ===== src/Storage/Qcow2/Image/Writing.antt =====
-- About storage/qcow2.rs: Qcow2File.
-- write_chunk: the guest's disk is as before, with the bytes written over.
use clone.Prelude.{
  ℕ, ap, ◌∙◌, ◌+◌, ◌-◌, ◌*◌, ◌/◌, ◌%◌, ◌^◌, ◌≤◌, ◌<◌, ◌≡◌, ◌⊎◌, refl, sym, inl, inr, Option, none,
  some, List, arith, length,
}
use clone.Storage.File.{write_all}
use clone.Storage.Reply.{Reply, done, after, modify, pure}
use clone.Storage.Qcow2.Header.{cluster_size}
use clone.Storage.Qcow2.Image.{Qcow2File, M}
use clone.Storage.Qcow2.Image.Cluster.{l1_index, l2_index}
use clone.Storage.Qcow2.Image.Io.{write_host}
use clone.Storage.Qcow2.Image.Sound.{Owner, IsSized, cluster_size_bounds}
use clone.Storage.Qcow2.Image.View.{mapping}
use clone.Storage.Qcow2.Image.Disk.{guest_byte}
use clone.Storage.Qcow2.Image.Contract.{IsDisk, IsSound}
use clone.Storage.Qcow2.Image.Grow.{grow, IsGrown-IsLaid, IsGrown-IsCoherent}
use clone.Storage.Qcow2.Image.GuestWrite.{write-IsGrown}
use native.Mathlib.Decide.{ℕ_discrete}
use native.Mathlib.Nat.{mod-lt, div-add-mod}
use clone.Storage.Qcow2.Image.Io.{allocate_for}
use clone.Storage.Qcow2.Image.Sound.{slot}
use clone.Storage.Qcow2.Image.Disk.{IsMapped, mapping-IsMapped}
use clone.Memory.Guest.{add64}
use clone.Memory.Store.{store}
use native.Mathlib.Nat.{mod-eq_of_lt}
use clone.Storage.Qcow2.Image.Io.{write_chunk}
use clone.Storage.Qcow2.Image.Sound.{place_of}
use clone.Storage.Qcow2.Image.Same.{change}
use clone.Storage.Qcow2.Image.View.{IsTranslated, translate-IsTranslated}
use clone.Storage.Qcow2.Image.Disk.{mapping-change, guest_byte-change}
use clone.Storage.Qcow2.Image.Reads.{l2_offset_bound}
use clone.Storage.Qcow2.Image.Reading.{IsSound-change}
use clone.Storage.Qcow2.Image.GuestWrite.{store_inside, store_at, guest_byte-write}
use clone.Storage.Qcow2.Image.Home.{IsHome, allocate_for-IsHome}

module _ {B : Type 0} (read : B → ℕ → ℕ → B × Reply (List ℕ)) where
  -- Its place, or a new one.
  abbrev pub place_of_chunk : ℕ → ℕ → Option ℕ → M B ℕ
  place_of_chunk pos n (some h) = pure h
  place_of_chunk pos n none = allocate_for read pos n

  pub chunk_step :
      {own : ℕ → Owner} (q : Qcow2File B) (pos : ℕ) (bytes : List ℕ) (t : IsTranslated own q pos)
      → write_chunk read pos bytes q
        ≡ after
            (place_of_chunk pos
              (length bytes)
              (mapping q pos)
              (change q t.file_t t.cache_t t.count_t))
            (λ offset. modify (write_host read (add64 offset (pos % cluster_size q.header)) bytes))
  unfolding write_chunk
  chunk_step q pos bytes t =
      ap
        (λ p. after p λ host q'.
          after (place_of_chunk pos (length bytes) host q')
            λ offset. modify (write_host read (add64 offset (pos % cluster_size q.header)) bytes))
        t.ends_t

module _ {B : Type 0} (read : B → ℕ → ℕ → B × Reply (List ℕ)) (peek : B → ℕ → ℕ) (limit : B → ℕ)
    (Good : B → Type 0) (top : ℕ) (disk : IsDisk read peek limit Good) where
  -- The operation ends well, in a sound image that is longer by at most `extra`, with the bytes
  -- written over the disk.
  pub record IsWrite (own : ℕ → Owner) (q : Qcow2File B) (m : M B (Unit {0})) (pos : ℕ)
      (bytes : List ℕ) (extra : ℕ) : Type 0 where
    pub own_w : ℕ → Owner
    pub image_w : Qcow2File B
    pub ends_w : m q ≡ (image_w, done tt)
    pub sound_w : IsSound peek limit Good top own_w image_w
    pub header_w : image_w.header ≡ q.header
    pub short_w : image_w.next_alloc_offset ≤ q.next_alloc_offset + extra
    pub disk_w :
        (x : ℕ)
        → x < q.header.size
        → guest_byte peek image_w x ≡ store (guest_byte peek q) pos bytes x

  -- The cluster has a place.
  place-IsWrite :
      {own : ℕ → Owner} (q : Qcow2File B) (pos h : ℕ) (bytes : List ℕ)
      → IsSound peek limit Good top own q
      → pos < q.header.size
      → pos % cluster_size q.header + length bytes ≤ cluster_size q.header
      → mapping q pos ≡ some h
      → IsWrite own q
          (modify (write_host read (add64 h (pos % cluster_size q.header)) bytes))
          pos
          bytes
          0
  place-IsWrite {own} q pos h bytes s l room at =
      let c = cluster_size q.header in
      let m : IsMapped own q pos h = mapping-IsMapped q pos h s.laid l at in
      let sizes = cluster_size_bounds q.header s.laid.sized in
      let k : pos % c < c = mod-lt pos (omega (arith, sizes)) in
      let below : h < 2 ^ 62 =
        rw (sym m.named)
          (l2_offset_bound (slot q (l1_index q.header pos) (l2_index q.header pos))) in
      let wrap : add64 h (pos % c) ≡ h + pos % c = mod-eq_of_lt (omega (arith, below, k, sizes)) in
      let f = write_all q.file (h + pos % c) bytes in
      let t = q.refcount_table in
      let n = q.next_alloc_offset in
      let g =
        write-IsGrown q h (pos % c) (l1_index q.header pos) (l2_index q.header pos) bytes s.laid
          m.held room in
      record {
        own_w = own;
        image_w = grow q f t n;
        ends_w =
            ap {B = Qcow2File B × Reply (Unit {0})} (λ o. (write_host read o bytes q, done tt))
              wrap;
        sound_w = record {
          laid = IsGrown-IsLaid q f t n s.laid g;
          coherent = IsGrown-IsCoherent q f t n s.laid g s.coherent;
          backed = s.backed;
          reach = s.reach;
        };
        header_w = refl;
        short_w = omega arith;
        disk_w = λ x lx. guest_byte-write peek q pos h x bytes s.laid l lx at room;
      }

  -- A byte that a chunk leaves alone is that from before, whatever cluster it is in.
  home_byte :
      {own : ℕ → Owner} (q : Qcow2File B) (pos x : ℕ) (bytes : List ℕ)
      (r : IsHome read peek limit Good top disk own q pos (length bytes))
      → IsSized q.header
      → x < q.header.size
      → pos % cluster_size q.header + length bytes ≤ cluster_size q.header
      → store (guest_byte peek r.image_h) pos bytes x ≡ store (guest_byte peek q) pos bytes x
  home_byte q pos x bytes r v lx room =
      let c = cluster_size q.header in
      let sizes = cluster_size_bounds q.header v in
      let k : x % c < c = mod-lt x (omega (arith, sizes)) in
      elim (place_of x pos (length bytes)) [
        | inr (inr (k, l, e)) ↦
            ap (store (guest_byte peek r.image_h) pos bytes) (sym e)
            ∙ store_inside (guest_byte peek r.image_h) pos bytes k l
            ∙ sym (store_inside (guest_byte peek q) pos bytes k l)
            ∙ ap (store (guest_byte peek q) pos bytes) e
        | inl before ↦
            store_at (guest_byte peek r.image_h) (guest_byte peek q) pos bytes x (kept (inl before))
        | inr (inl behind) ↦
            store_at (guest_byte peek r.image_h) (guest_byte peek q) pos bytes x (kept (inr behind))
      ]
    where
      kept :
          (x < pos) ⊎ (pos + length bytes ≤ x) → guest_byte peek r.image_h x ≡ guest_byte peek q x
      kept beside =
          let c = cluster_size q.header in
          let sizes = cluster_size_bounds q.header v in
          let k : x % c < c = mod-lt x (omega (arith, sizes)) in
          elim (ℕ_discrete (x / c) (pos / c)) [
            | no other ↦ r.others_h x lx other
            | yes same ↦
                let px = div-add-mod x c in
                let pp = div-add-mod pos c in
                let times : c * (x / c) ≡ c * (pos / c) = ap (λ d. c * d) same in
                r.same_h x lx (omega (arith, px, pp, times, beside, room, k)) same
          ]

  -- From where the translation has ended.
  placed-IsWrite :
      {own : ℕ → Owner} (q : Qcow2File B) (pos : ℕ) (bytes : List ℕ)
      → IsSound peek limit Good top own q
      → pos < q.header.size
      → pos % cluster_size q.header + length bytes ≤ cluster_size q.header
      → q.next_alloc_offset + 4 * cluster_size q.header < 2 ^ 55
      → (length bytes < cluster_size q.header
          → pos - pos % cluster_size q.header + cluster_size q.header ≤ top)
      → (o : Option ℕ) → mapping q pos ≡ o
      → IsWrite own q
          (λ q'.
            after
              (place_of_chunk read pos (length bytes) o q')
              λ offset. modify (write_host read (add64 offset (pos % cluster_size q.header)) bytes))
          pos
          bytes
          (4 * cluster_size q.header)
  placed-IsWrite {own} q pos bytes s l room below padded (some h) at =
      let w = place-IsWrite q pos h bytes s l room at in
      record {
        own_w = w.own_w;
        image_w = w.image_w;
        ends_w = w.ends_w;
        sound_w = w.sound_w;
        header_w = w.header_w;
        short_w = omega (arith, w.short_w);
        disk_w = w.disk_w;
      }
  placed-IsWrite {own} q pos bytes s l room below padded none at =
      let r =
        allocate_for-IsHome read peek limit Good top disk q pos (length bytes) s l at below
          padded in
      let off = q.next_alloc_offset in
      let w =
        place-IsWrite r.image_h pos off bytes r.sound_h (rw r.header_h l) (rw r.header_h room)
          r.mapped_h in
      record {
        own_w = w.own_w;
        image_w = w.image_w;
        ends_w =
            ap
              (λ p. after p λ offset.
                modify (write_host read (add64 offset (pos % cluster_size q.header)) bytes))
              r.ends_h
            ∙ ap
                (λ h. (write_host read (add64 off (pos % cluster_size h)) bytes r.image_h, done tt))
                (sym r.header_h)
            ∙ w.ends_w;
        sound_w = w.sound_w;
        header_w = w.header_w ∙ r.header_h;
        short_w = omega (arith, w.short_w, r.short_h);
        disk_w =
            λ x lx. w.disk_w x (rw r.header_h lx) ∙ home_byte q pos x bytes r s.laid.sized lx room;
      }

  pub write_chunk-IsWrite :
      {own : ℕ → Owner} (q : Qcow2File B) (pos : ℕ) (bytes : List ℕ)
      → IsSound peek limit Good top own q
      → pos < q.header.size
      → pos % cluster_size q.header + length bytes ≤ cluster_size q.header
      → q.next_alloc_offset + 4 * cluster_size q.header < 2 ^ 55
      → (length bytes < cluster_size q.header
          → pos - pos % cluster_size q.header + cluster_size q.header ≤ top)
      → IsWrite own q (write_chunk read pos bytes) pos bytes (4 * cluster_size q.header)
  write_chunk-IsWrite {own} q pos bytes s l room below padded =
      let t = translate-IsTranslated q pos s.laid s.coherent l in
      let q' = change q t.file_t t.cache_t t.count_t in
      let s' = IsSound-change read peek limit Good top disk q pos t s in
      let e = mapping-change q pos t.file_t t.cache_t t.count_t s.laid t.same_t l in
      let w = placed-IsWrite q' pos bytes s' l room below padded (mapping q pos) e in
      record {
        own_w = w.own_w;
        image_w = w.image_w;
        ends_w = chunk_step read q pos bytes t ∙ w.ends_w;
        sound_w = w.sound_w;
        header_w = w.header_w;
        short_w = w.short_w;
        disk_w = λ x lx.
            w.disk_w x lx
            ∙ store_at (guest_byte peek q') (guest_byte peek q) pos bytes x
                (guest_byte-change peek q x t.file_t t.cache_t t.count_t s.laid t.same_t lx);
      }
