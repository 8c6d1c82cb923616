-- ===== src/Storage/Qcow2/Image/Reads.antt =====
-- About storage/qcow2.rs: Qcow2File.
-- Where a stretch of one cluster of the guest's disk is read from.
use clone.Prelude.{
  ℕ, zero, suc, ap, ◌∙◌, ◌+◌, ◌/◌, ◌%◌, ◌^◌, ◌≤◌, ◌<◌, ◌≡◌, refl, sym, Option, none, some, ◌∷◌,
  arith, ◌==◌, if◌then◌else◌, replicate,
}
use clone.Memory.Store.{load}
use clone.Storage.Qcow2.Header.{cluster_size, l2_entries_per_table}
use clone.Storage.Qcow2.Image.{Qcow2File, l2_offset}
use clone.Storage.Qcow2.Image.Cluster.{host_of}
use clone.Storage.Qcow2.Image.Tables.{load_shift, load_ext}
use clone.Storage.Qcow2.Image.Sound.{Owner, table_offset, slot, IsLaid, IsCoherent}
use clone.Storage.Qcow2.Image.View.{same_cluster, mapping}
use clone.Storage.Qcow2.Image.Disk.{backing_byte, guest_byte, guest_byte-mapping}

pub replicate-load : (n pos : ℕ) → replicate n 0 ≡ load (λ x. 0) pos n
replicate-load zero pos = refl
replicate-load (suc n) pos = ap (◌∷◌ 0) (replicate-load n (pos + 1))

-- An entry's offset has 62 bits.
pub l2_offset_bound : (entry : ℕ) → l2_offset entry < 2 ^ 62
l2_offset_bound entry = omega arith

module _ {B : Type 0} where
  -- The backing file has no part in the tables.
  pub IsLaid-rebacked :
      {own : ℕ → Owner} (q : Qcow2File B) (o : Option B)
      → IsLaid own q
      → IsLaid own (record q { backing = o })
  unfolding slot
  IsLaid-rebacked q o v = record {
    sized = v.sized;
    l1_len = v.l1_len;
    l1_small = v.l1_small;
    small = v.small;
    covers = v.covers;
    whole = v.whole;
    aligned = v.aligned;
    begun = v.begun;
    tables = v.tables;
    blocks = v.blocks;
    fits = v.fits;
    plain = v.plain;
    guests = v.guests;
  }

  pub IsCoherent-rebacked :
      (q : Qcow2File B) (o : Option B) → IsCoherent q → IsCoherent (record q { backing = o })
  IsCoherent-rebacked q o h i e at =
      let w = h i e at in
      record {
        present = w.present;
        in_place = w.in_place;
        full = w.full;
        all64 = w.all64;
        clean = w.clean;
      }

  pub mapping_rebacked :
      (q : Qcow2File B) (o : Option B) (pos : ℕ)
      → mapping (record q { backing = o }) pos ≡ mapping q pos
  unfolding mapping slot
  mapping_rebacked q o pos = refl

  pub mapping_in_cluster :
      (q : Qcow2File B) (pos k : ℕ)
      → pos % cluster_size q.header + k < cluster_size q.header
      → mapping q (pos + k) ≡ mapping q pos
  unfolding mapping
  mapping_in_cluster q pos k l =
      ap
        (λ d.
          let i = d / l2_entries_per_table q.header in
          if table_offset q i == 0
          then none
          else host_of (slot q i (d % l2_entries_per_table q.header)))
        (same_cluster q.header pos k l).0

module _ {B : Type 0} (peek : B → ℕ → ℕ) where
  -- A stretch of one cluster, where it is kept.
  pub load-mapped :
      (q : Qcow2File B) (pos n h : ℕ)
      → mapping q pos ≡ some h
      → pos % cluster_size q.header + n ≤ cluster_size q.header
      → load q.file.content (h + pos % cluster_size q.header) n ≡ load (guest_byte peek q) pos n
  load-mapped q pos n h at room =
      load_shift q.file.content (guest_byte peek q) (h + pos % cluster_size q.header) pos n λ k l.
        let inside : pos % cluster_size q.header + k < cluster_size q.header = omega arith in
        ap q.file.content (omega (arith, (same_cluster q.header pos k inside).1))
        ∙ sym
            (guest_byte-mapping peek q (pos + k) (some h) (mapping_in_cluster q pos k inside ∙ at))

  pub load-unmapped :
      (q : Qcow2File B) (pos n : ℕ)
      → mapping q pos ≡ none
      → pos % cluster_size q.header + n ≤ cluster_size q.header
      → load (backing_byte peek q.backing) pos n ≡ load (guest_byte peek q) pos n
  load-unmapped q pos n at room =
      load_ext (backing_byte peek q.backing) (guest_byte peek q) pos n λ k l.
        sym
          (guest_byte-mapping peek q (pos + k) none (mapping_in_cluster q pos k (omega arith) ∙ at))
