-- ===== src/Storage/Qcow2/Image/Ensure.antt =====
-- About storage/qcow2.rs: Qcow2File.
-- Making room in the cache, writing tables back and loading them: each ends well on a sound image,
-- and leaves what the guest has stored as it was.
use clone.Prelude.{
  ℕ, ap, ◌∙◌, ◌+◌, ◌%◌, ◌^◌, ◌≡◌, ◌≢◌, inl, inr, refl, subst, none, some, false, arith, length, leb,
  Bool-cases, Option-cases,
}
use native.Mathlib.Decide.{ℕ_discrete}
use clone.Storage.File.{DiskFile}
use clone.Storage.Reply.{after, done}
use clone.Storage.Qcow2.Header.{l2_entries_per_table}
use clone.Storage.Qcow2.Image.{
  Qcow2File, L2CacheEntry, Cache, M, find, insert, remove, oldest, table_at, write_table,
  read_table, write_back, flush_l2_table, evict_l2_entry, load_l2_table, make_room,
  ensure_l2_cached,
}
use clone.Storage.Qcow2.Image.Assoc.{find-insert, find-remove, oldest-IsFound}
use clone.Storage.Qcow2.Image.Tables.{read_table_inside}
use clone.Storage.Qcow2.Image.Sound.{Owner, cluster_size_bounds, table_offset, IsLaid, IsCoherent}
use clone.Storage.Qcow2.Image.Same.{change, IsSame, IsSame-IsLaid, IsSame-refl, IsSame-trans}
use clone.Storage.Qcow2.Image.Caching.{
  relabel, write_back-IsSame, remove-IsSame, admit-IsSame, none_or_some,
}

insert-none :
    (k i : ℕ) (e e' : L2CacheEntry) (c : Cache)
    → find i c ≡ some e
    → find k c ≡ none
    → find k (insert i e' c) ≡ none
insert-none k i e e' c at out = elim (ℕ_discrete i k) [
  | yes eq ↦ absurd (none_or_some out (subst (λ k. find k c ≡ some e) eq at))
  | no ne ↦ find-insert k i e' c ∙ ground (arith, out)
]

module _ {B : Type 0} where
  -- The operation ends well and adds no table to the cache, with the image the same to its guest.
  pub record IsTransparent (own : ℕ → Owner) (q : Qcow2File B) (m : M B (Unit {0})) : Type 0 where
    pub file_after : DiskFile
    pub cache_after : Cache
    pub count_after : ℕ
    pub ends : m q ≡ (change q file_after cache_after count_after, done tt)
    pub same : IsSame own q file_after cache_after count_after
    pub none_added : (k : ℕ) → find k q.l2_cache ≡ none → find k cache_after ≡ none

  -- What the write-back of a table leaves: the table is clean.
  record IsWritten (own : ℕ → Owner) (q : Qcow2File B) (i : ℕ) (e : L2CacheEntry) : Type 0 where
    file_then : DiskFile
    cache_then : Cache
    written : write_back i e q ≡ change q file_then cache_then q.access_counter
    same_then : IsSame own q file_then cache_then q.access_counter
    entry_then : L2CacheEntry
    found_then : find i cache_then ≡ some entry_then
    clean_then : entry_then.dirty ≡ false
    none_then : (k : ℕ) → find k q.l2_cache ≡ none → find k cache_then ≡ none

  write_back-IsWritten :
      {own : ℕ → Owner} (q : Qcow2File B) (i : ℕ) (e : L2CacheEntry)
      → IsLaid own q
      → IsCoherent q
      → find i q.l2_cache ≡ some e
      → IsWritten own q i e
  write_back-IsWritten {own} q i e v h at = elim (Bool-cases e.dirty) [
    | inl d ↦ record {
      file_then = write_table q.file e.host_offset e.entries;
      cache_then = insert i (record e { dirty = false }) q.l2_cache;
      written = rw d refl;
      same_then = write_back-IsSame q i q.access_counter e v h at;
      entry_then = record e { dirty = false };
      found_then = find-insert i i (record e { dirty = false }) q.l2_cache ∙ ground arith;
      clean_then = refl;
      none_then = λ k out. insert-none k i e (record e { dirty = false }) q.l2_cache at out;
    }
    | inr d ↦ record {
      file_then = q.file;
      cache_then = q.l2_cache;
      written = rw d refl;
      same_then = IsSame-refl q h;
      entry_then = e;
      found_then = at;
      clean_then = d;
      none_then = λ k out. out;
    }
  ]

  evict_step :
      (q : Qcow2File B) (i : ℕ) (e : L2CacheEntry)
      → oldest q.l2_cache ≡ some i
      → find i q.l2_cache ≡ some e
      → evict_l2_entry q
        ≡ (let q' = write_back i e q in (record q' { l2_cache = remove i q'.l2_cache }, done tt))
  unfolding evict_l2_entry flush_l2_table
  evict_step q i e old at = rw (evict_l2_entry, old, flush_l2_table, at) refl

  evict_found :
      {own : ℕ → Owner} (q : Qcow2File B) (i : ℕ) (e : L2CacheEntry)
      → IsLaid own q
      → IsCoherent q
      → oldest q.l2_cache ≡ some i
      → find i q.l2_cache ≡ some e
      → IsTransparent own q evict_l2_entry
  evict_found {own} q i e v h old at =
      let w = write_back-IsWritten q i e v h at in
      record {
        file_after = w.file_then;
        cache_after = remove i w.cache_then;
        count_after = q.access_counter;
        ends =
            evict_step q i e old at
            ∙ ap (λ q'. (record q' { l2_cache = remove i q'.l2_cache }, done tt)) w.written;
        same = IsSame-trans w.same_then (
            remove-IsSame (change q w.file_then w.cache_then q.access_counter) i q.access_counter
              w.entry_then w.same_then.coherent w.found_then w.clean_then);
        none_added = λ k out. find-remove k i w.cache_then ∙ ground (arith, w.none_then k out);
      }

  evict-IsTransparent :
      {own : ℕ → Owner} (q : Qcow2File B)
      → IsLaid own q
      → IsCoherent q
      → IsTransparent own q evict_l2_entry
  unfolding evict_l2_entry
  evict-IsTransparent {own} q v h = elim (Option-cases (oldest q.l2_cache)) [
    | inl none_old ↦ record {
      file_after = q.file;
      cache_after = q.l2_cache;
      count_after = q.access_counter;
      ends = rw (evict_l2_entry, none_old) refl;
      same = IsSame-refl q h;
      none_added = λ k out. out;
    }
    | inr (i, old) ↦ let (e, at) = oldest-IsFound q.l2_cache i old in evict_found q i e v h old at
  ]

  make_room-IsTransparent :
      {own : ℕ → Owner} (q : Qcow2File B)
      → IsLaid own q
      → IsCoherent q
      → IsTransparent own q make_room
  unfolding make_room
  make_room-IsTransparent {own} q v h = elim (Bool-cases (leb 256 (length q.l2_cache))) [
    | inl many ↦
        let r = evict-IsTransparent q v h in
        record {
          file_after = r.file_after;
          cache_after = r.cache_after;
          count_after = r.count_after;
          ends = rw many r.ends;
          same = r.same;
          none_added = r.none_added;
        }
    | inr few ↦ record {
      file_after = q.file;
      cache_after = q.l2_cache;
      count_after = q.access_counter;
      ends = rw few refl;
      same = IsSame-refl q h;
      none_added = λ k out. out;
    }
  ]

  -- The table of an L1 index is in the cache in the end.
  pub record IsEnsured (own : ℕ → Owner) (q : Qcow2File B) (m : M B (Unit {0})) (i : ℕ)
      : Type 0 where
    pub file_end : DiskFile
    pub cache_end : Cache
    pub count_end : ℕ
    pub ends_well : m q ≡ (change q file_end cache_end count_end, done tt)
    pub same_end : IsSame own q file_end cache_end count_end
    pub entry_end : L2CacheEntry
    pub found_end : find i cache_end ≡ some entry_end

  read_table-present :
      {own : ℕ → Owner} (q : Qcow2File B) (i : ℕ)
      → IsLaid own q
      → table_offset q i ≢ 0
      → read_table q.file (table_offset q i) (l2_entries_per_table q.header)
        ≡ some (table_at q.file.content (table_offset q i) (l2_entries_per_table q.header))
  read_table-present q i v p =
      let room = (v.tables i p).inside in
      let sizes = cluster_size_bounds q.header v.sized in
      read_table_inside q.file (table_offset q i) (l2_entries_per_table q.header)
        (rw v.whole (omega (arith, room, sizes)))

  load-IsEnsured :
      {own : ℕ → Owner} (q : Qcow2File B) (i : ℕ)
      → IsLaid own q
      → IsCoherent q
      → find i q.l2_cache ≡ none
      → table_offset q i ≢ 0
      → IsEnsured own q (load_l2_table i (table_offset q i)) i
  unfolding load_l2_table
  load-IsEnsured {own} q i v h out p =
      let now = (q.access_counter + 1) % 2 ^ 64 in
      let e : L2CacheEntry = record {
        entries = table_at q.file.content (table_offset q i) (l2_entries_per_table q.header);
        dirty = false;
        host_offset = table_offset q i;
        last_access = now;
      } in
      record {
        file_end = q.file;
        cache_end = insert i e q.l2_cache;
        count_end = now;
        ends_well = rw (load_l2_table, read_table-present q i v p) refl;
        same_end = admit-IsSame q i now e v h out p refl refl;
        entry_end = e;
        found_end = find-insert i i e q.l2_cache ∙ ground arith;
      }

  touch-IsEnsured :
      {own : ℕ → Owner} (q : Qcow2File B) (i : ℕ) (e : L2CacheEntry)
      → IsCoherent q
      → find i q.l2_cache ≡ some e
      → IsEnsured own q (ensure_l2_cached i (table_offset q i)) i
  unfolding ensure_l2_cached
  touch-IsEnsured {own} q i e h at =
      let now = (q.access_counter + 1) % 2 ^ 64 in
      let e' : L2CacheEntry = record e { last_access = now } in
      record {
        file_end = q.file;
        cache_end = insert i e' q.l2_cache;
        count_end = now;
        ends_well = rw (ensure_l2_cached, at) refl;
        same_end = relabel q i now e e' h at refl refl refl;
        entry_end = e';
        found_end = find-insert i i e' q.l2_cache ∙ ground arith;
      }

  fetch-IsEnsured :
      {own : ℕ → Owner} (q : Qcow2File B) (i : ℕ)
      → IsLaid own q
      → IsCoherent q
      → find i q.l2_cache ≡ none
      → table_offset q i ≢ 0
      → IsEnsured own q (ensure_l2_cached i (table_offset q i)) i
  unfolding ensure_l2_cached
  fetch-IsEnsured {own} q i v h out p =
      let r = make_room-IsTransparent q v h in
      let q' = change q r.file_after r.cache_after r.count_after in
      let t = load-IsEnsured q' i (IsSame-IsLaid v r.same) r.same.coherent (r.none_added i out) p in
      record {
        file_end = t.file_end;
        cache_end = t.cache_end;
        count_end = t.count_end;
        ends_well =
            (rw (ensure_l2_cached, out) refl)
            ∙ ap (λ s. after s (λ _. load_l2_table i (table_offset q i))) r.ends
            ∙ t.ends_well;
        same_end = IsSame-trans r.same t.same_end;
        entry_end = t.entry_end;
        found_end = t.found_end;
      }

  -- On an image that is laid out soundly and agrees with its cache, ensure_l2_cached of an L1 index
  -- that has a table succeeds, whatever it evicts and writes back for it: the table is in the
  -- cache, the cache agrees with the file again, and every L2 entry, every byte of the guest's
  -- clusters and the file's length are as before.
  pub ensure-IsEnsured :
      {own : ℕ → Owner} (q : Qcow2File B) (i : ℕ)
      → IsLaid own q
      → IsCoherent q
      → table_offset q i ≢ 0
      → IsEnsured own q (ensure_l2_cached i (table_offset q i)) i
  ensure-IsEnsured q i v h p = elim (Option-cases (find i q.l2_cache)) [
    | inl out ↦ fetch-IsEnsured q i v h out p
    | inr (e, at) ↦ touch-IsEnsured q i e h at
  ]
