-- ===== src/Storage/Qcow2/Image/GuestWrite.antt =====
-- About storage/qcow2.rs: Qcow2File.
-- A write to a cluster of the guest's: the image stays sound, and the disk changes there alone.
use clone.Prelude.{
  ℕ, zero, suc, ap, ◌∙◌, ◌+◌, ◌*◌, ◌/◌, ◌%◌, ◌≤◌, ◌<◌, ◌≡◌, ◌⊎◌, refl, sym, inl, inr, none, some,
  List, [], ◌∷◌, arith, length, get_or, Option-cases,
}
use native.Mathlib.Nat.{mod-lt, div-add-mod}
use clone.Memory.Store.{Store, put, store, store_outside}
use clone.Storage.File.{DiskFile, cut, write_all}
use clone.Storage.Qcow2.Header.{cluster_size}
use clone.Storage.Qcow2.Image.{Qcow2File, l2_offset}
use clone.Storage.Qcow2.Image.Cluster.{l1_index, l2_index}
use clone.Storage.Qcow2.Image.Tables.{write_all_outside, len-write_all}
use clone.Storage.Qcow2.Image.Sound.{
  Owner, cluster_size_bounds, place_of, Holds, apart, slot, IsLaid,
}
use clone.Storage.Qcow2.Image.View.{same_cluster, mapping}
use clone.Storage.Qcow2.Image.Disk.{IsMapped, mapping-IsMapped, guest_byte, guest_byte-mapping}
use clone.Storage.Qcow2.Image.Reads.{mapping_in_cluster}
use clone.Storage.Qcow2.Image.Grow.{grow, IsGrown, mapping_grown}
use clone.Storage.Qcow2.Image.SetEntry.{cluster_of_indices}

pub store_inside :
    (s : Store) (i : ℕ) (bytes : List ℕ) (k : ℕ)
    → k < length bytes
    → store s i bytes (i + k) ≡ get_or bytes k 0
unfolding store
store_inside s i [] k l = absurd (omega arith)
store_inside s i (b ∷ bytes) zero l =
    store_outside (put s i b) (i + 1) bytes (i + 0) (inl (omega arith)) ∙ ground arith
store_inside s i (b ∷ bytes) (suc k) l =
    ap (store (put s i b) (i + 1) bytes) (omega arith)
    ∙ store_inside (put s i b) (i + 1) bytes k (omega arith)

-- Where two stores agree, they agree after the same write.
pub store_at :
    (s t : Store) (i : ℕ) (bytes : List ℕ) (x : ℕ)
    → s x ≡ t x
    → store s i bytes x ≡ store t i bytes x
unfolding store
store_at s t i [] x h = h
store_at s t i (b ∷ bytes) x h =
    store_at (put s i b) (put t i b) (i + 1) bytes x (ground (arith, h))

pub content-write_all :
    (f : DiskFile) (offset : ℕ) (bytes : List ℕ) (k : ℕ)
    → k < length bytes
    → (write_all f offset bytes).content (offset + k) ≡ get_or bytes k 0
unfolding write_all
content-write_all f offset bytes k l = store_inside (cut f) offset bytes k l

module _ {B : Type 0} where
  -- The owner of the cluster is the only one whose bytes change.
  pub write-IsGrown :
      {own : ℕ → Owner} (q : Qcow2File B) (h rel i j : ℕ) (bytes : List ℕ)
      → IsLaid own q
      → Holds own q h (Owner.guest i j)
      → rel + length bytes ≤ cluster_size q.header
      → IsGrown
          (Owner.guest i j)
          own
          own
          q
          (write_all q.file (h + rel) bytes)
          q.refcount_table
          q.next_alloc_offset
  write-IsGrown {own} q h rel i j bytes v o room = record {
    not_table = λ k e. cc;
    forward = omega arith;
    still_whole =
        len-write_all q.file (h + rel) bytes (rw v.whole (omega (arith, o.inside))) ∙ v.whole;
    still_aligned = v.aligned;
    same_own = λ x l. refl;
    same_bytes = λ x l ne.
        let beside = apart x (own x) o refl (λ e. ne (sym e)) in
        write_all_outside q.file (h + rel) bytes x (rw v.whole l) (omega (arith, beside));
    still_blocks = v.blocks;
  }

  -- A byte of the disk that is kept where another is, is that other.
  same_place :
      {own : ℕ → Owner} (q : Qcow2File B) (pos x h g k : ℕ)
      → IsLaid own q
      → pos < q.header.size
      → x < q.header.size
      → mapping q pos ≡ some h
      → mapping q x ≡ some g
      → pos % cluster_size q.header + k < cluster_size q.header
      → h + pos % cluster_size q.header + k ≡ g + x % cluster_size q.header
      → x ≡ pos + k
  same_place {own} q pos x h g k v l lx at atx room e =
      let c = cluster_size q.header in
      let sizes = cluster_size_bounds q.header v.sized in
      let m : IsMapped own q pos h = mapping-IsMapped q pos h v l at in
      let mx : IsMapped own q x g = mapping-IsMapped q x g v lx atx in
      let rel : x % c < c = mod-lt x (omega (arith, sizes)) in
      let place : h + (pos % c + k) ≡ g + x % c = omega arith in
      let owners = sym (m.held.mine (pos % c + k) room) ∙ ap own place ∙ mx.held.mine (x % c) rel in
      let (ei, ej) = guest_parts owners in
      let cluster = cluster_of_indices q.header pos x ei ej in
      let hosts : h ≡ g =
        sym m.named
        ∙ ap (λ i. l2_offset (slot q i (l2_index q.header pos))) ei
        ∙ ap (λ j. l2_offset (slot q (l1_index q.header x) j)) ej
        ∙ mx.named in
      let px = div-add-mod x c in
      let pp = div-add-mod pos c in
      let times : c * (pos / c) ≡ c * (x / c) = ap (λ d. c * d) cluster in
      omega (arith, hosts, px, pp, times, e)
    where
      guest_parts : {i j i' j' : ℕ} → Owner.guest i j ≡ Owner.guest i' j' → (i ≡ i') × (j ≡ j')
      guest_parts e = (cc, cc)

module _ {B : Type 0} (peek : B → ℕ → ℕ) where
  guest_byte_beside :
      {own : ℕ → Owner} (q : Qcow2File B) (pos h x : ℕ) (bytes : List ℕ)
      → IsLaid own q
      → pos < q.header.size
      → x < q.header.size
      → mapping q pos ≡ some h
      → pos % cluster_size q.header + length bytes ≤ cluster_size q.header
      → (x < pos) ⊎ (pos + length bytes ≤ x)
      → guest_byte peek
          (grow q
            (write_all q.file (h + pos % cluster_size q.header) bytes)
            q.refcount_table
            q.next_alloc_offset)
          x
        ≡ guest_byte peek q x
  guest_byte_beside {own} q pos h x bytes v l lx at room beside =
      let c = cluster_size q.header in
      let f = write_all q.file (h + pos % c) bytes in
      let r = grow q f q.refcount_table q.next_alloc_offset in
      let m : IsMapped own q pos h = mapping-IsMapped q pos h v l at in
      let g =
        write-IsGrown q h (pos % c) (l1_index q.header pos) (l2_index q.header pos) bytes v m.held
          room in
      let same = mapping_grown q f q.refcount_table q.next_alloc_offset x v g lx in
      elim (Option-cases (mapping q x)) [
        | inl z ↦
            guest_byte-mapping peek r x none (same ∙ z) ∙ sym (guest_byte-mapping peek q x none z)
        | inr (y, aty) ↦
            let my : IsMapped own q x y = mapping-IsMapped q x y v lx aty in
            let sizes = cluster_size_bounds q.header v.sized in
            let rel : x % c < c = mod-lt x (omega (arith, sizes)) in
            let inside : y + x % c < q.file.len = rw v.whole (omega (arith, rel, my.held.inside)) in
            let kept : f.content (y + x % c) ≡ q.file.content (y + x % c) =
              elim (place_of (y + x % c) (h + pos % c) (length bytes)) [
                | inl low ↦
                    write_all_outside q.file (h + pos % c) bytes (y + x % c) inside (inl low)
                | inr (inl high) ↦
                    write_all_outside q.file (h + pos % c) bytes (y + x % c) inside (inr high)
                | inr (inr (k, lk, e)) ↦
                    let eq = same_place q pos x h y k v l lx at aty (omega arith) e in
                    absurd (omega (arith, beside, eq, lk))
              ] in
            guest_byte-mapping peek r x (some y) (same ∙ aty)
            ∙ kept
            ∙ sym (guest_byte-mapping peek q x (some y) aty)
      ]

  -- The disk after a write to a mapped cluster.
  pub guest_byte-write :
      {own : ℕ → Owner} (q : Qcow2File B) (pos h x : ℕ) (bytes : List ℕ)
      → IsLaid own q
      → pos < q.header.size
      → x < q.header.size
      → mapping q pos ≡ some h
      → pos % cluster_size q.header + length bytes ≤ cluster_size q.header
      → guest_byte peek
          (grow q
            (write_all q.file (h + pos % cluster_size q.header) bytes)
            q.refcount_table
            q.next_alloc_offset)
          x
        ≡ store (guest_byte peek q) pos bytes x
  guest_byte-write {own} q pos h x bytes v l lx at room =
      let c = cluster_size q.header in
      let f = write_all q.file (h + pos % c) bytes in
      let r = grow q f q.refcount_table q.next_alloc_offset in
      let m : IsMapped own q pos h = mapping-IsMapped q pos h v l at in
      let g =
        write-IsGrown q h (pos % c) (l1_index q.header pos) (l2_index q.header pos) bytes v m.held
          room in
      let same = mapping_grown q f q.refcount_table q.next_alloc_offset x v g lx in
      elim (place_of x pos (length bytes)) [
        | inr (inr (k, lk, e)) ↦
            let inside : pos % c + k < c = omega arith in
            let there : mapping q x ≡ some h =
              ap (mapping q) (sym e) ∙ mapping_in_cluster q pos k inside ∙ at in
            let place : h + x % c ≡ h + pos % c + k =
              ap (λ y. h + y % c) (sym e) ∙ omega (arith, (same_cluster q.header pos k inside).1) in
            guest_byte-mapping peek r x (some h) (same ∙ there)
            ∙ ap f.content place
            ∙ content-write_all q.file (h + pos % c) bytes k lk
            ∙ sym (store_inside (guest_byte peek q) pos bytes k lk)
            ∙ ap (store (guest_byte peek q) pos bytes) e
        | inl before ↦
            guest_byte_beside q pos h x bytes v l lx at room (inl before)
            ∙ sym (store_outside (guest_byte peek q) pos bytes x (inl before))
        | inr (inl behind) ↦
            guest_byte_beside q pos h x bytes v l lx at room (inr behind)
            ∙ sym (store_outside (guest_byte peek q) pos bytes x (inr behind))
      ]
