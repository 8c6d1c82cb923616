-- ===== src/Storage/Qcow2/Image/SetEntry.antt =====
-- About storage/qcow2.rs: Qcow2File.
-- What setting an entry of an L2 table is to do to the map of clusters.
use clone.Prelude.{
  ℕ, ap, ◌∙◌, ◌+◌, ◌*◌, ◌/◌, ◌%◌, ◌^◌, ◌≤◌, ◌<◌, ◌≡◌, ◌≢◌, refl, sym, some, List, false, arith,
  get_or, ◌==◌,
}
use native.Mathlib.Decide.{ℕ_discrete}
use native.Mathlib.Nat.{div-add-mod}
use clone.Storage.Reply.{done}
use clone.Storage.Qcow2.Header.{Qcow2Header, cluster_size, l2_entries_per_table}
use clone.Storage.Qcow2.Image.{Qcow2File, L2CacheEntry, M, l1_offset, l2_offset, copied}
use clone.Storage.Qcow2.Image.Cluster.{l1_index, l2_index, host_of}
use clone.Storage.Qcow2.Image.Sound.{Owner, table_offset, slot, IsLaid, IsCoherent}
use clone.Storage.Qcow2.Image.View.{mapping, mapping-present, mapping-absent}
use clone.Storage.Qcow2.Image.Put.{IsPut, after_put, slot_put, slot_put_ne, offset_put}
use clone.Storage.Qcow2.Image.Entries.{l2_offset-copied}

-- Two addresses with the same indices are in the same cluster.
pub cluster_of_indices :
    (h : Qcow2Header) (x y : ℕ)
    → l1_index h x ≡ l1_index h y
    → l2_index h x ≡ l2_index h y
    → x / cluster_size h ≡ y / cluster_size h
cluster_of_indices h x y e f =
    let n = l2_entries_per_table h in
    sym (div-add-mod (x / cluster_size h) n)
    ∙ ap (λ k. n * k + l2_index h x) e
    ∙ ap (λ k. n * l1_index h y + k) f
    ∙ div-add-mod (y / cluster_size h) n

pub host_of-copied : (o : ℕ) → o % 512 ≡ 0 → o < 2 ^ 55 → o ≢ 0 → host_of (copied o) ≡ some o
host_of-copied o h l ne =
    let e = l2_offset-copied o h l in
    let z : (l2_offset (copied o) == 0) ≡ false = rw e (ground arith) in
    (let s : host_of (copied o) ≡ some (l2_offset (copied o)) = rw (host_of, z) refl in s)
    ∙ ap (λ x. some x) e

module _ {B : Type 0} where
  -- What the map of clusters is after a table is put in.
  module _ {own : ℕ → Owner} (q : Qcow2File B) (l : List ℕ) (i n : ℕ) (e : L2CacheEntry)
      (w : IsPut own q l i e) where
    pub mapping_put_here :
        (x : ℕ)
        → l1_index q.header x ≡ i
        → mapping (after_put q l i n e w) x ≡ host_of (get_or e.entries (l2_index q.header x) 0)
    mapping_put_here x at =
        let r = after_put q l i n e w in
        let j = l2_index q.header x in
        let p : table_offset r (l1_index q.header x) ≢ 0 =
          λ z. w.place_held.0 (w.place ∙ ap (λ k. l1_offset (get_or l k 0)) (sym at) ∙ z) in
        mapping-present r x p
        ∙ ap (λ k. host_of (slot r k j)) at
        ∙ ap (λ s. host_of s) (slot_put q l i n e w j)

    pub mapping_put_ne :
        (x : ℕ) → i ≢ l1_index q.header x → mapping (after_put q l i n e w) x ≡ mapping q x
    mapping_put_ne x ne =
        let r = after_put q l i n e w in
        let k = l1_index q.header x in
        let o = offset_put q l i n e w k ne in
        elim (ℕ_discrete (table_offset q k) 0) [
          | yes z ↦ mapping-absent r x (o ∙ z) ∙ sym (mapping-absent q x z)
          | no p ↦
              mapping-present r x (λ z. p (sym o ∙ z))
              ∙ ap (λ s. host_of s) (slot_put_ne q l i n e w k (l2_index q.header x) ne)
              ∙ sym (mapping-present q x p)
        ]

  -- The operation ends well, maps the cluster of `pos` to `host` and grows the image by at most `extra`
  -- bytes; every other cluster is mapped as before, and the guest's bytes stay.
  pub record IsEntered (own : ℕ → Owner) (q : Qcow2File B) (m : M B (Unit {0})) (pos host extra : ℕ)
      : Type 0 where
    pub own_s : ℕ → Owner
    pub image_s : Qcow2File B
    pub ends_s : m q ≡ (image_s, done tt)
    pub laid_s : IsLaid own_s image_s
    pub coherent_s : IsCoherent image_s
    pub header_s : image_s.header ≡ q.header
    pub backing_s : image_s.backing ≡ q.backing
    pub forward_s : q.next_alloc_offset ≤ image_s.next_alloc_offset
    pub short_s : image_s.next_alloc_offset ≤ q.next_alloc_offset + extra
    pub own_same_s : (x : ℕ) → x < q.next_alloc_offset → own_s x ≡ own x
    pub bytes_s :
        (x i j : ℕ)
        → x < q.next_alloc_offset
        → own x ≡ Owner.guest i j
        → image_s.file.content x ≡ q.file.content x
    pub maps_s :
        (x : ℕ)
        → x < q.header.size
        → x / cluster_size q.header ≡ pos / cluster_size q.header
        → mapping image_s x ≡ some host
    pub keeps_s :
        (x : ℕ)
        → x < q.header.size
        → x / cluster_size q.header ≢ pos / cluster_size q.header
        → mapping image_s x ≡ mapping q x
