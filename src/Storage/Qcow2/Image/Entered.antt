-- ===== src/Storage/Qcow2/Image/Entered.antt =====
-- About storage/qcow2.rs: Qcow2File.
-- set_l2_entry: one cluster of the guest's disk is mapped, and nothing else changes for the guest.
use clone.Prelude.{
  ℕ, ap, ◌∙◌, ◌/◌, ◌%◌, ◌^◌, ◌<◌, ◌≡◌, ◌≢◌, refl, sym, subst, some, true, arith, length, get_or,
  set, ltb,
}
use native.Mathlib.Decide.{ℕ_discrete}
use clone.Storage.Reply.{done}
use clone.Storage.Qcow2.Header.{l2_entries_per_table}
use clone.Storage.Qcow2.Image.{Qcow2File, L2CacheEntry, copied, find, insert}
use clone.Storage.Qcow2.Image.Cluster.{l1_index, l2_index, host_of, set_cached}
use clone.Storage.Qcow2.Image.Alloc.{get_or-set_self}
use clone.Storage.Qcow2.Image.Sound.{
  Owner, Holds, table_offset, slot, slot_cached, IsLaid, IsCoherent,
}
use clone.Storage.Qcow2.Image.View.{index_bounds, mapping-present}
use clone.Storage.Qcow2.Image.Put.{put, IsPut, IsPut-IsLaid, IsPut-IsCoherent}
use clone.Storage.Qcow2.Image.Entries.{cached-IsTable, set-IsTable, get_or-set_ne}
use clone.Storage.Qcow2.Image.SetEntry.{
  cluster_of_indices, host_of-copied, mapping_put_here, mapping_put_ne, IsEntered,
}

-- A cached table with one entry set.
abbrev entry_set : L2CacheEntry → ℕ → ℕ → L2CacheEntry
entry_set e j host = record e { entries = set e.entries j (copied host); dirty = true }

module _ {B : Type 0} where
  set-IsPut :
      {own : ℕ → Owner} (q : Qcow2File B) (i j host : ℕ) (e : L2CacheEntry)
      → IsLaid own q
      → IsCoherent q
      → find i q.l2_cache ≡ some e
      → j < l2_entries_per_table q.header
      → host % 512 ≡ 0
      → host < 2 ^ 55
      → Holds own q host (Owner.guest i j)
      → IsPut own q q.l1_table i (entry_set e j host)
  set-IsPut {own} q i j host e v h at b even small o =
      let c = h i e at in
      let t = set-IsTable q i j host e.entries (cached-IsTable q i e v h at) b even small o in
      record {
        same_length = refl;
        elsewhere = λ k ne. refl;
        place = c.in_place;
        place_held = (
          λ z. c.present (sym c.in_place ∙ z),
          subst (λ x. Holds own q x (Owner.table i)) (sym c.in_place) (v.tables i c.present),
        );
        dirty_e = refl;
        full_e = t.full_t;
        all64_e = t.all64_t;
        plain_e = t.plain_t;
        guests_e = t.guests_t;
      }

  set_cached_step :
      (q : Qcow2File B) (i j host : ℕ) (e : L2CacheEntry)
      → find i q.l2_cache ≡ some e
      → j < length e.entries
      → set_cached i j (copied host) q
        ≡ (put q q.l1_table (insert i (entry_set e j host) q.l2_cache) q.access_counter, done tt)
  set_cached_step q i j host e at l =
      let inside : ltb j (length e.entries) ≡ true = ground arith in
      rw (set_cached, at, inside) refl

  pub set_cached-IsEntered :
      {own : ℕ → Owner} (q : Qcow2File B) (pos host : ℕ) (e : L2CacheEntry)
      → IsLaid own q
      → IsCoherent q
      → pos < q.header.size
      → find (l1_index q.header pos) q.l2_cache ≡ some e
      → host % 512 ≡ 0
      → host < 2 ^ 55
      → host ≢ 0
      → Holds own q host (Owner.guest (l1_index q.header pos) (l2_index q.header pos))
      → IsEntered own q
          (set_cached (l1_index q.header pos) (l2_index q.header pos) (copied host))
          pos
          host
          0
  set_cached-IsEntered {own} q pos host e v h l at even small nz o =
      let i = l1_index q.header pos in
      let j = l2_index q.header pos in
      let n = l2_entries_per_table q.header in
      let bounds = index_bounds q.header pos v.sized v.covers l in
      let c = h i e at in
      let e' = entry_set e j host in
      let w = set-IsPut q i j host e v h at bounds.1 even small o in
      let fill = get_or-set_self e.entries j (copied host) (rw c.full bounds.1) in
      record {
        own_s = own;
        image_s = put q q.l1_table (insert i e' q.l2_cache) q.access_counter;
        ends_s = set_cached_step q i j host e at (rw c.full bounds.1);
        laid_s = IsPut-IsLaid q q.l1_table i q.access_counter e' w v;
        coherent_s = IsPut-IsCoherent q q.l1_table i q.access_counter e' w h;
        header_s = refl;
        backing_s = refl;
        forward_s = omega arith;
        short_s = omega arith;
        own_same_s = λ x lx. refl;
        bytes_s = λ x k m lx g. refl;
        maps_s = λ x lx same.
            mapping_put_here q q.l1_table i q.access_counter e' w x (ap (λ d. d / n) same)
            ∙ ap (λ d. host_of (get_or e'.entries (d % n) 0)) same
            ∙ ap (λ s. host_of s) fill
            ∙ host_of-copied host even small nz;
        keeps_s = λ x lx other. elim (ℕ_discrete i (l1_index q.header x)) [
          | no ne ↦ mapping_put_ne q q.l1_table i q.access_counter e' w x ne
          | yes eq ↦
              let k = l2_index q.header x in
              let p : table_offset q (l1_index q.header x) ≢ 0 =
                λ z. c.present (ap (table_offset q) eq ∙ z) in
              mapping_put_here q q.l1_table i q.access_counter e' w x (sym eq)
              ∙ ap (λ s. host_of s)
                  (get_or-set_ne e.entries j (copied host) k
                      (λ f. other (cluster_of_indices q.header x pos (sym eq) (sym f)))
                    ∙ sym (slot_cached q i k e at)
                    ∙ ap (λ i. slot q i k) eq)
              ∙ sym (mapping-present q x p)
        ];
      }
