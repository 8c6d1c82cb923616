-- ===== src/Storage/Qcow2/Image/View.antt =====
-- About storage/qcow2.rs: Qcow2File.
-- Where each cluster of the disk that the guest sees is kept, and that translate_cluster finds it.
use clone.Prelude.{
  ℕ, ap, ◌∙◌, ◌+◌, ◌*◌, ◌/◌, ◌%◌, ◌^◌, ◌≤◌, ◌<◌, ◌≡◌, ◌≢◌, refl, sym, Option, none, some, List, [],
  ◌∷◌, zero, suc, true, false, arith, length, get_or, get_elem?, ◌==◌, ltb, if◌then◌else◌,
}
use native.Mathlib.Nat.{
  mod-eq_of_lt, mod-lt, div-lt_iff_lt-mul, div-add-mod, mul-add-div, mul-add-mod_self_left,
  div-eq_of_lt,
}
use native.Mathlib.Decide.{ℕ_discrete}
use clone.Storage.File.{DiskFile}
use clone.Storage.Reply.{done, after}
use clone.Storage.Qcow2.Header.{Qcow2Header, cluster_size, l2_entries_per_table}
use clone.Storage.Qcow2.Image.{
  Qcow2File, L2CacheEntry, Cache, is_compressed, find, ensure_l2_cached,
}
use clone.Storage.Qcow2.Image.Cluster.{
  l1_index, l2_index, host_of, cached_entry, get_l2_entry, checked_host, translate_cluster,
}
use clone.Storage.Qcow2.Image.Sound.{
  Owner, IsSized, cluster_size_bounds, table_offset, slot, slot_cached, IsLaid, IsCached,
  IsCoherent,
}
use clone.Storage.Qcow2.Image.Same.{change, IsSame, IsSame-refl}
use clone.Storage.Qcow2.Image.Ensure.{ensure-IsEnsured}

-- The indices of an address are those of its cluster.
pub index_bounds :
    (h : Qcow2Header) (pos : ℕ)
    → IsSized h
    → h.size ≤ h.l1_size * l2_entries_per_table h * cluster_size h
    → pos < h.size
    → (l1_index h pos < h.l1_size) × (l2_index h pos < l2_entries_per_table h)
index_bounds h pos v covers l =
    let sizes = cluster_size_bounds h v in
    let some_entries : 0 < l2_entries_per_table h = omega (arith, sizes) in
    let cluster : pos / cluster_size h < h.l1_size * l2_entries_per_table h =
      (div-lt_iff_lt-mul (omega (arith, sizes))).1 (omega arith) in
    ((div-lt_iff_lt-mul some_entries).1 cluster, mod-lt (pos / cluster_size h) some_entries)

pub same_cluster :
    (h : Qcow2Header) (pos k : ℕ)
    → pos % cluster_size h + k < cluster_size h
    → ((pos + k) / cluster_size h ≡ pos / cluster_size h)
      × ((pos + k) % cluster_size h ≡ pos % cluster_size h + k)
same_cluster h pos k l =
    let c = cluster_size h in
    let split : pos + k ≡ c * (pos / c) + (pos % c + k) = omega (arith, div-add-mod pos c) in
    (
      ap (λ x. x / c) split
          ∙ mul-add-div (omega arith) (pos / c) (pos % c + k)
          ∙ rw (div-eq_of_lt l) (omega arith),
      ap (λ x. x % c) split ∙ mul-add-mod_self_left c (pos / c) (pos % c + k) ∙ mod-eq_of_lt l,
    )

get_elem?-inside : (xs : List ℕ) (i : ℕ) → i < length xs → get_elem? xs i ≡ some (get_or xs i 0)
get_elem?-inside [] i h = absurd (omega arith)
get_elem?-inside (x ∷ xs) zero h = refl
get_elem?-inside (x ∷ xs) (suc i) h = get_elem?-inside xs i (omega arith)

module _ {B : Type 0} where
  -- Where the cluster of an address is kept, by the tables alone.
  unfoldable pub mapping : Qcow2File B → ℕ → Option ℕ
  mapping q pos =
      let i = l1_index q.header pos in
      if table_offset q i == 0 then none else host_of (slot q i (l2_index q.header pos))

  pub mapping-present :
      (q : Qcow2File B) (pos : ℕ)
      → table_offset q (l1_index q.header pos) ≢ 0
      → mapping q pos ≡ host_of (slot q (l1_index q.header pos) (l2_index q.header pos))
  unfolding mapping
  mapping-present q pos p =
      let there : (table_offset q (l1_index q.header pos) == 0) ≡ false = ground arith in
      rw (mapping, there) refl

  pub mapping-absent :
      (q : Qcow2File B) (pos : ℕ)
      → table_offset q (l1_index q.header pos) ≡ 0
      → mapping q pos ≡ none
  unfolding mapping
  mapping-absent q pos p = rw (mapping, p) refl

  -- The translation ends well with a cluster, and the image the same to its guest.
  pub record IsTranslated (own : ℕ → Owner) (q : Qcow2File B) (pos : ℕ) : Type 0 where
    pub file_t : DiskFile
    pub cache_t : Cache
    pub count_t : ℕ
    pub ends_t : translate_cluster pos q ≡ (change q file_t cache_t count_t, done (mapping q pos))
    pub same_t : IsSame own q file_t cache_t count_t

  cached_entry-found :
      (q : Qcow2File B) (i j : ℕ) (e : L2CacheEntry)
      → IsCached q i e
      → find i q.l2_cache ≡ some e
      → j < l2_entries_per_table q.header
      → cached_entry i j q ≡ (q, done (slot q i j))
  cached_entry-found q i j e w at l =
      let inside : j < length e.entries = rw w.full l in
      let value : get_elem? e.entries j ≡ some (get_or e.entries j 0) =
        get_elem?-inside e.entries j inside in
      let got : cached_entry i j q ≡ (q, done (get_or e.entries j 0)) =
        rw (cached_entry, at, value) refl in
      got ∙ ap (λ n. (q, done n)) (sym (slot_cached q i j e at))

  checked_host-plain :
      (entry : ℕ) (q : Qcow2File B)
      → is_compressed entry ≡ false
      → checked_host entry q ≡ (q, done (host_of entry))
  checked_host-plain zero q h = refl
  checked_host-plain (suc n) q h =
      let some_entry : (suc n == 0) ≡ false = ground arith in rw (some_entry, h) refl

  pub l1_entry_at :
      {own : ℕ → Owner} (q : Qcow2File B) (pos : ℕ)
      → IsLaid own q
      → pos < q.header.size
      → (l1_index q.header pos % 2 ^ 32 ≡ l1_index q.header pos)
        × (ltb (l1_index q.header pos) q.header.l1_size ≡ true)
        × (get_elem? q.l1_table (l1_index q.header pos)
            ≡ some (get_or q.l1_table (l1_index q.header pos) 0))
  l1_entry_at q pos v l =
      let bounds = index_bounds q.header pos v.sized v.covers l in
      (
        mod-eq_of_lt (omega (arith, bounds.0, v.l1_small)),
        ground (arith, bounds.0),
        get_elem?-inside q.l1_table (l1_index q.header pos) (omega (arith, bounds.0, v.l1_len)),
      )

  translate_step :
      {own : ℕ → Owner} (q : Qcow2File B) (pos : ℕ)
      → IsLaid own q
      → pos < q.header.size
      → table_offset q (l1_index q.header pos) ≢ 0
      → translate_cluster pos q ≡ (
          let i = l1_index q.header pos in
          after
            (after
              (ensure_l2_cached i (table_offset q i) q)
              λ _. cached_entry i (l2_index q.header pos))
            checked_host)
  unfolding translate_cluster get_l2_entry
  translate_step q pos v l p =
      let (mod32, inside, entry) = l1_entry_at q pos v l in
      let there : (table_offset q (l1_index q.header pos) == 0) ≡ false = ground arith in
      rw (mod32, inside, entry, there, mod32) refl

  mapped-IsTranslated :
      {own : ℕ → Owner} (q : Qcow2File B) (pos : ℕ)
      → IsLaid own q
      → IsCoherent q
      → pos < q.header.size
      → table_offset q (l1_index q.header pos) ≢ 0
      → IsTranslated own q pos
  mapped-IsTranslated {own} q pos v h l p =
      let i = l1_index q.header pos in
      let j = l2_index q.header pos in
      let bounds = index_bounds q.header pos v.sized v.covers l in
      let r = ensure-IsEnsured q i v h p in
      let q' = change q r.file_end r.cache_end r.count_end in
      let at = r.found_end in
      let got =
        cached_entry-found q' i j r.entry_end (r.same_end.coherent i r.entry_end at) at bounds.1 in
      record {
        file_t = r.file_end;
        cache_t = r.cache_end;
        count_t = r.count_end;
        ends_t =
            translate_step q pos v l p
            ∙ ap (λ r. after (after r λ _. cached_entry i j) checked_host) r.ends_well
            ∙ ap (λ r. after r checked_host) got
            ∙ checked_host-plain (slot q' i j) q'
                (rw (r.same_end.slots i j p bounds.1) (v.plain i j p bounds.1))
            ∙ ap (λ n. (q', done (host_of n))) (r.same_end.slots i j p bounds.1)
            ∙ ap (λ m. (q', done m)) (sym (mapping-present q pos p));
        same_t = r.same_end;
      }

  unmapped_step :
      {own : ℕ → Owner} (q : Qcow2File B) (pos : ℕ)
      → IsLaid own q
      → pos < q.header.size
      → table_offset q (l1_index q.header pos) ≡ 0
      → translate_cluster pos q ≡ (q, done none)
  unfolding translate_cluster
  unmapped_step q pos v l p =
      let (mod32, inside, entry) = l1_entry_at q pos v l in
      let there : (table_offset q (l1_index q.header pos) == 0) ≡ true = ground arith in
      rw (mod32, inside, entry, there) refl

  pub translate-IsTranslated :
      {own : ℕ → Owner} (q : Qcow2File B) (pos : ℕ)
      → IsLaid own q
      → IsCoherent q
      → pos < q.header.size
      → IsTranslated own q pos
  translate-IsTranslated {own} q pos v h l =
      elim (ℕ_discrete (table_offset q (l1_index q.header pos)) 0) [
        | no p ↦ mapped-IsTranslated q pos v h l p
        | yes z ↦ record {
          file_t = q.file;
          cache_t = q.l2_cache;
          count_t = q.access_counter;
          ends_t = unmapped_step q pos v l z ∙ ap (λ m. (q, done m)) (sym (mapping-absent q pos z));
          same_t = IsSame-refl q h;
        }
      ]
