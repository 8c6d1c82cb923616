-- ===== src/Storage/Qcow2/Image/Caching.antt =====
-- About storage/qcow2.rs: Qcow2File.
-- The cache is transparent: loading, evicting and writing back tables changes neither an entry nor
-- a byte of the guest's.
use clone.Prelude.{
  ℕ, ap, ◌∙◌, ◌+◌, ◌*◌, ◌^◌, ◌≤◌, ◌<◌, ◌≡◌, ◌≢◌, refl, sym, subst, Option, none, some, false, arith,
  length, get_or,
}
use clone.Storage.Qcow2.Header.{l2_entries_per_table}
use clone.Storage.Qcow2.Image.{Qcow2File, L2CacheEntry, find, insert, remove, table_at, write_table}
use clone.Storage.Qcow2.Image.Assoc.{find-insert, find-remove}
use clone.Storage.Qcow2.Image.Tables.{
  number_at, number_at_ext, All64, len-write_table, write_table_outside, number_at-write_table,
  length-table_at, get_or-table_at, All64-of_each,
}
use clone.Storage.Qcow2.Image.Sound.{
  Owner, cluster_size_bounds, apart, table_offset, slot_cached, slot_missing, IsLaid, IsCached,
  IsCoherent,
}
use clone.Storage.Qcow2.Image.Same.{change, IsSame, IsSame-at}

pub same_entry : {o : Option L2CacheEntry} {e f : L2CacheEntry} → o ≡ some e → o ≡ some f → e ≡ f
same_entry h w = cc

pub none_or_some : {o : Option L2CacheEntry} {e : L2CacheEntry} → o ≡ none → o ≡ some e → ⊥
none_or_some h w = cc

module _ {B : Type 0} where
  -- A table of the cache put in again with the same entries.
  pub relabel :
      {own : ℕ → Owner} (q : Qcow2File B) (i n : ℕ) (e e' : L2CacheEntry)
      → IsCoherent q
      → find i q.l2_cache ≡ some e
      → e'.entries ≡ e.entries
      → e'.host_offset ≡ e.host_offset
      → e'.dirty ≡ e.dirty
      → IsSame own q q.file (insert i e' q.l2_cache) n
  relabel {own} q i n e e' h at same place dirt =
      let self : find i (insert i e' q.l2_cache) ≡ some e' =
        find-insert i i e' q.l2_cache ∙ ground arith in
      IsSame-at {own = own} q q.file (insert i e' q.l2_cache) n i h
        (record {
          kept_len = refl;
          kept_find = λ k ne. find-insert k i e' q.l2_cache ∙ ground arith;
          kept_numbers = λ k j ne p l. refl;
          kept_bytes = λ x k j l o. refl;
        })
        (λ j p l.
          slot_cached (change q q.file (insert i e' q.l2_cache) n) i j e' self
          ∙ ap (λ t. get_or t j 0) same
          ∙ sym (slot_cached q i j e at))
        (λ f w.
          let old = h i e at in
          subst (IsCached (change q q.file (insert i e' q.l2_cache) n) i) (same_entry self w)
            (record {
              present = old.present;
              in_place = place ∙ old.in_place;
              full = ap length same ∙ old.full;
              all64 = subst All64 (sym same) old.all64;
              clean = λ d j l. ap (λ t. get_or t j 0) same ∙ old.clean (sym dirt ∙ d) j l;
            }))

  room_of_table :
      {own : ℕ → Owner} (q : Qcow2File B) (i : ℕ) (e : L2CacheEntry)
      → IsLaid own q
      → IsCached q i e
      → e.host_offset + length e.entries * 8 ≤ q.file.len
  room_of_table q i e v w =
      let room = (v.tables i w.present).inside in
      let sizes = cluster_size_bounds q.header v.sized in
      rw (w.in_place, w.full, v.whole) (omega (arith, room, sizes))

  -- A table that is written at its place leaves what is not its own.
  beside_table :
      {own : ℕ → Owner} (q : Qcow2File B) (i : ℕ) (e : L2CacheEntry) (x : ℕ) (u : Owner)
      → IsLaid own q
      → IsCached q i e
      → x < q.file.len
      → own x ≡ u
      → Owner.table i ≢ u
      → (write_table q.file e.host_offset e.entries).content x ≡ q.file.content x
  beside_table q i e x u v w inside at ne =
      let room = room_of_table q i e v w in
      let sizes = cluster_size_bounds q.header v.sized in
      let beside = apart x u (v.tables i w.present) at ne in
      write_table_outside q.file e.host_offset e.entries x inside room
        (rw (w.in_place, w.full, sizes.3) beside)

  -- A number of another table is inside the file, and that table's own.
  number_elsewhere :
      {own : ℕ → Owner} (q : Qcow2File B) (i k j : ℕ) (e : L2CacheEntry)
      → IsLaid own q
      → IsCached q i e
      → i ≢ k
      → table_offset q k ≢ 0
      → j < l2_entries_per_table q.header
      → number_at (write_table q.file e.host_offset e.entries) (table_offset q k + j * 8)
        ≡ number_at q.file (table_offset q k + j * 8)
  number_elsewhere q i k j e v w ne p l =
      let sizes = cluster_size_bounds q.header v.sized in
      let o = v.tables k p in
      number_at_ext (write_table q.file e.host_offset e.entries) q.file (table_offset q k + j * 8)
        λ m b.
          let x : table_offset q k + (j * 8 + m) ≡ table_offset q k + j * 8 + m = omega arith in
          beside_table q i e (table_offset q k + j * 8 + m) (Owner.table k) v w
            (rw v.whole (omega (arith, o.inside, sizes, b, l)))
            (rw (sym x) (o.mine (j * 8 + m) (omega (arith, sizes, b, l)))) λ c. ne cc

  pub write_back-IsSame :
      {own : ℕ → Owner} (q : Qcow2File B) (i n : ℕ) (e : L2CacheEntry)
      → IsLaid own q
      → IsCoherent q
      → find i q.l2_cache ≡ some e
      → IsSame own q
          (write_table q.file e.host_offset e.entries)
          (insert i (record e { dirty = false }) q.l2_cache)
          n
  write_back-IsSame {own} q i n e v h at =
      let f = write_table q.file e.host_offset e.entries in
      let e' : L2CacheEntry = record e { dirty = false } in
      let c = insert i e' q.l2_cache in
      let w = h i e at in
      let self : find i c ≡ some e' = find-insert i i e' q.l2_cache ∙ ground arith in
      IsSame-at {own = own} q f c n i h
        (record {
          kept_len = len-write_table q.file e.host_offset e.entries (room_of_table q i e v w);
          kept_find = λ k ne. find-insert k i e' q.l2_cache ∙ ground arith;
          kept_numbers = λ k j ne p l. number_elsewhere q i k j e v w ne p l;
          kept_bytes = λ x k j l o. beside_table q i e x (Owner.guest k j) v w l o λ d. cc;
        })
        (λ j p l. slot_cached (change q f c n) i j e' self ∙ sym (slot_cached q i j e at))
        (λ g m. subst (IsCached (change q f c n) i) (same_entry self m) (record {
          present = w.present;
          in_place = w.in_place;
          full = w.full;
          all64 = w.all64;
          clean = λ d j l.
              sym (
                number_at-write_table q.file e.host_offset e.entries j (room_of_table q i e v w)
                  w.all64 (rw w.full l))
              ∙ ap (λ o. number_at f (o + j * 8)) w.in_place;
        }))

  -- A clean table leaves the cache.
  pub remove-IsSame :
      {own : ℕ → Owner} (q : Qcow2File B) (i n : ℕ) (e : L2CacheEntry)
      → IsCoherent q
      → find i q.l2_cache ≡ some e
      → e.dirty ≡ false
      → IsSame own q q.file (remove i q.l2_cache) n
  remove-IsSame {own} q i n e h at d =
      let c = remove i q.l2_cache in
      let gone : find i c ≡ none = find-remove i i q.l2_cache ∙ ground arith in
      let w = h i e at in
      IsSame-at {own = own} q q.file c n i h
        (record {
          kept_len = refl;
          kept_find = λ k ne. find-remove k i q.l2_cache ∙ ground arith;
          kept_numbers = λ k j ne p l. refl;
          kept_bytes = λ x k j l o. refl;
        })
        (λ j p l.
          slot_missing (change q q.file c n) i j gone
          ∙ sym (w.clean d j l)
          ∙ sym (slot_cached q i j e at))
        (λ f m. absurd (none_or_some gone m))

  -- A table that is not in the cache enters it as the file has it.
  pub admit-IsSame :
      {own : ℕ → Owner} (q : Qcow2File B) (i n : ℕ) (e : L2CacheEntry)
      → IsLaid own q
      → IsCoherent q
      → find i q.l2_cache ≡ none
      → table_offset q i ≢ 0
      → e.host_offset ≡ table_offset q i
      → e.entries ≡ table_at q.file.content (table_offset q i) (l2_entries_per_table q.header)
      → IsSame own q q.file (insert i e q.l2_cache) n
  admit-IsSame {own} q i n e v h out p place same =
      let c = insert i e q.l2_cache in
      let size = l2_entries_per_table q.header in
      let self : find i c ≡ some e = find-insert i i e q.l2_cache ∙ ground arith in
      let read : (j : ℕ)
          → j < size
          → get_or e.entries j 0 ≡ number_at q.file (table_offset q i + j * 8) =
        λ j l. ap (λ t. get_or t j 0) same ∙ get_or-table_at q.file (table_offset q i) size j l in
      let long : length e.entries ≡ size =
        ap length same ∙ length-table_at q.file.content (table_offset q i) size in
      let fit : (j : ℕ) → j < length e.entries → get_or e.entries j 0 < 2 ^ 64 = λ j l.
        let l' : j < size = rw (sym long) l in
        rw (read j l', sym (slot_missing q i j out)) (v.fits i j p l') in
      IsSame-at {own = own} q q.file c n i h
        (record {
          kept_len = refl;
          kept_find = λ k ne. find-insert k i e q.l2_cache ∙ ground arith;
          kept_numbers = λ k j ne p l. refl;
          kept_bytes = λ x k j l o. refl;
        })
        (λ j p l.
          slot_cached (change q q.file c n) i j e self ∙ read j l ∙ sym (slot_missing q i j out))
        (λ f m. subst (IsCached (change q q.file c n) i) (same_entry self m) (record {
          present = p;
          in_place = place;
          full = long;
          all64 = All64-of_each e.entries fit;
          clean = λ d j l. read j l;
        }))
