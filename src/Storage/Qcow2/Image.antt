-- ===== src/Storage/Qcow2/Image.antt =====
-- storage/qcow2.rs: Qcow2File, an open image, and its cache of L2 tables. The type `B` is that of
-- the backing file, which a read may change.
pub mod Refcount
pub mod Cluster
pub mod Io
pub mod Flush
pub mod Open
pub mod Backing
pub mod Assoc
pub mod Tables
pub mod Sound
pub mod Same
pub mod Caching
pub mod Ensure
pub mod View
pub mod Disk
pub mod Reads
pub mod Contract
pub mod Reading
pub mod ReadAt
pub mod Chain
pub mod Grow
pub mod Alloc
pub mod Counted
pub mod Put
pub mod Entries
pub mod SetEntry
pub mod Entered
pub mod SetL2
pub mod GuestWrite
pub mod Fill
pub mod Allocate
pub mod Home
pub mod Writing
pub mod WriteAt
pub mod Partial
mod Tests
use clone.Prelude.{
  ℕ, zero, suc, ◌+◌, ◌*◌, ◌/◌, ◌%◌, ◌^◌, Option, none, some, List, [], ◌∷◌, Bool, true, false, ltb,
  leb, ◌==◌, if◌then◌else◌, length, map, to_be, from_be,
}
use clone.Memory.Store.{Store, load}
use clone.Storage.File.{DiskFile, write_all}
use clone.Storage.Reply.{Reply, error, panicked, done, failed, ◌>>=◌, ◌>>◌, pure, fail, modify}
use clone.Storage.Qcow2.Header.{Qcow2Header, cluster_size, l2_entries_per_table}

-- A table held in memory. `last_access` is for the eviction of the least recently used.
pub record L2CacheEntry : Type 0 where
  pub entries : List ℕ
  pub dirty : Bool
  pub host_offset : ℕ
  pub last_access : ℕ

-- The HashMap, keyed by L1 index.
abbrev pub Cache : Type 0
Cache = List (ℕ × L2CacheEntry)

pub record Qcow2File (B : Type 0) : Type 0 where
  pub file : DiskFile
  pub header : Qcow2Header
  pub l1_table : List ℕ
  pub refcount_table : List ℕ
  pub l2_cache : Cache
  pub access_counter : ℕ
  pub next_alloc_offset : ℕ
  pub backing : Option B

abbrev pub l2_cache_max_tables : ℕ
l2_cache_max_tables = 256

-- `entry & L1_OFFSET_MASK`, bits 9 to 55, and `entry & L2_OFFSET_MASK`, bits 9 to 61.
abbrev pub l1_offset : ℕ → ℕ
l1_offset entry = entry % 2 ^ 56 / 2 ^ 9 * 2 ^ 9

abbrev pub l2_offset : ℕ → ℕ
l2_offset entry = entry % 2 ^ 62 / 2 ^ 9 * 2 ^ 9

-- `entry & L2_FLAG_COMPRESSED != 0`, and `offset | L2_FLAG_COPIED` on 64 bits.
abbrev pub is_compressed : ℕ → Bool
is_compressed entry = entry / 2 ^ 62 % 2 == 1

abbrev pub copied : ℕ → ℕ
copied offset = if offset / 2 ^ 63 % 2 == 1 then offset else offset + 2 ^ 63

-- contains_key and get, insert, remove.
unfoldable pub find : ℕ → Cache → Option L2CacheEntry
find k [] = none
find k ((i, e) ∷ cache) = if i == k then some e else find k cache

unfoldable pub insert : ℕ → L2CacheEntry → Cache → Cache
insert k e [] = (k, e) ∷ []
insert k e ((i, f) ∷ cache) = if i == k then (k, e) ∷ cache else (i, f) ∷ insert k e cache

unfoldable pub remove : ℕ → Cache → Cache
remove k [] = []
remove k ((i, e) ∷ cache) = let rest = remove k cache in if i == k then rest else (i, e) ∷ rest

-- min_by_key on last_access, with the least so far: the first of equals.
unfoldable pub oldest_from : ℕ → ℕ → Cache → ℕ
oldest_from k access [] = k
oldest_from k access ((i, e) ∷ cache) =
    oldest_from (if ltb e.last_access access then i else k)
      (if ltb e.last_access access then e.last_access else access) cache

unfoldable pub oldest : Cache → Option ℕ
unfolding oldest_from
oldest [] = none
oldest ((i, e) ∷ cache) = some (oldest_from i e.last_access cache)

-- The big-endian numbers of 8 bytes from an offset on.
abbrev pub table_at : Store → ℕ → ℕ → List ℕ
table_at s offset zero = []
table_at s offset (suc n) = from_be (load s offset 8) ∷ table_at s (offset + 8) n

-- No read for an empty table.
unfoldable pub read_table : DiskFile → ℕ → ℕ → Option (List ℕ)
read_table f offset count =
    if count == 0
    then some []
    else if leb (offset + count * 8) f.len
    then some (table_at f.content offset count)
    else none

-- `for &val in entries { file.write_all(&val.to_be_bytes()) }` from an offset on.
unfoldable pub write_table : DiskFile → ℕ → List ℕ → DiskFile
write_table f offset [] = f
write_table f offset (val ∷ entries) =
    write_table (write_all f offset (to_be 8 val)) (offset + 8) entries

abbrev pub M : Type 0 → Type 0 → Type 0
M B A = Qcow2File B → Qcow2File B × Reply A

module _ {B : Type 0} where
  -- An Option of the code that is unwrapped, or a read that fails.
  abbrev pub unwrap : {A : Type 0} → Option A → M B A
  unwrap none q = (q, failed panicked)
  unwrap (some a) q = (q, done a)

  abbrev pub ok_or_error : {A : Type 0} → Option A → M B A
  ok_or_error none q = (q, failed error)
  ok_or_error (some a) q = (q, done a)

  -- The entry is written if it is dirty.
  abbrev pub write_back : ℕ → L2CacheEntry → Qcow2File B → Qcow2File B
  write_back l1_index e q =
      if e.dirty
      then record q {
        file = write_table q.file e.host_offset e.entries;
        l2_cache = insert l1_index (record e { dirty = false }) q.l2_cache;
      }
      else q

  unfoldable pub flush_l2_table : ℕ → M B (Unit {0})
  flush_l2_table l1_index q = elim (find l1_index q.l2_cache) [
    | none ↦ (q, failed panicked)
    | some e ↦ (write_back l1_index e q, done tt)
  ]

  unfoldable pub evict_l2_entry : M B (Unit {0})
  unfolding flush_l2_table
  evict_l2_entry q = elim (oldest q.l2_cache) [
    | none ↦ (q, done tt)
    | some idx ↦
        (flush_l2_table idx >> modify λ q'. record q' { l2_cache = remove idx q'.l2_cache }) q
  ]

  -- The table is in the cache: it is touched.
  abbrev pub touch : ℕ → L2CacheEntry → Qcow2File B → Qcow2File B
  touch l1_index e q =
      let now = (q.access_counter + 1) % 2 ^ 64 in
      record q {
        access_counter = now;
        l2_cache = insert l1_index (record e { last_access = now }) q.l2_cache;
      }

  -- A table enters the cache.
  abbrev pub admit : ℕ → List ℕ → Bool → ℕ → Qcow2File B → Qcow2File B
  admit l1_index entries dirty host_offset q =
      let now = (q.access_counter + 1) % 2 ^ 64 in
      record q {
        access_counter = now;
        l2_cache =
            insert l1_index
              (record {
                entries = entries;
                dirty = dirty;
                host_offset = host_offset;
                last_access = now;
              })
              q.l2_cache;
      }

  unfoldable pub load_l2_table : ℕ → ℕ → M B (Unit {0})
  load_l2_table l1_index l2_table_offset q =
      elim (read_table q.file l2_table_offset (l2_entries_per_table q.header)) [
        | none ↦ (q, failed error)
        | some entries ↦ (admit l1_index entries false l2_table_offset q, done tt)
      ]

  -- Evict if the cache is full.
  unfoldable pub make_room : M B (Unit {0})
  make_room q =
      if leb l2_cache_max_tables (length q.l2_cache) then evict_l2_entry q else (q, done tt)

  unfoldable pub ensure_l2_cached : ℕ → ℕ → M B (Unit {0})
  ensure_l2_cached l1_index l2_table_offset q = elim (find l1_index q.l2_cache) [
    | some e ↦ (touch l1_index e q, done tt)
    | none ↦ (make_room >> load_l2_table l1_index l2_table_offset) q
  ]
