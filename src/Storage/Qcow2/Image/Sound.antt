-- ===== src/Storage/Qcow2/Image/Sound.antt =====
-- About storage/qcow2.rs: Qcow2File.
-- What a sound image is: each cluster of the file has one owner, and the cache agrees with the file.
use clone.Prelude.{
  ℕ, zero, suc, ap, ◌∙◌, ◌+◌, ◌-◌, ◌*◌, ◌%◌, ◌^◌, ◌≤◌, ◌<◌, ◌≡◌, ◌≢◌, ◌⊎◌, inl, inr, refl, sym,
  none, some, false, arith, length, get_or,
}
use native.Mathlib.Nat.{pow-le-pow_right}
use native.Mathlib.Decide.{dec_lt}
use clone.Storage.Qcow2.Header.{Qcow2Header, cluster_size, l2_entries_per_table}
use clone.Storage.Qcow2.Image.{Qcow2File, L2CacheEntry, l1_offset, l2_offset, is_compressed, find}
use clone.Storage.Qcow2.Image.Tables.{number_at, All64}

-- What the bytes of the file are used for: nothing that is tracked, a refcount block, the L2 table
-- of an L1 index, or the guest's cluster of an L1 and an L2 index.
pub data Owner : Type 0 where
  other block : Owner
  table : ℕ → Owner
  guest : ℕ → ℕ → Owner

pub record IsSized (h : Qcow2Header) : Type 0 where
  pub bits_low : 9 ≤ h.cluster_bits
  pub bits_high : h.cluster_bits ≤ 21

pow_aligned : (k : ℕ) → 2 ^ (9 + k) % 512 ≡ 0
pow_aligned zero = refl
pow_aligned (suc k) =
    let e : 9 + suc k ≡ suc (9 + k) = omega arith in rw e (omega (arith, pow_aligned k))

pub cluster_size_bounds :
    (h : Qcow2Header)
    → IsSized h
    → (512 ≤ cluster_size h)
      × (cluster_size h ≤ 2 ^ 21)
      × (cluster_size h % 512 ≡ 0)
      × (l2_entries_per_table h * 8 ≡ cluster_size h)
unfolding cluster_size l2_entries_per_table
cluster_size_bounds h v =
    let low : 512 ≤ 2 ^ h.cluster_bits = pow-le-pow_right (omega arith) v.bits_low in
    let high : 2 ^ h.cluster_bits ≤ 2 ^ 21 = pow-le-pow_right (omega arith) v.bits_high in
    let e : h.cluster_bits ≡ 9 + (h.cluster_bits - 9) = omega arith in
    let even : 2 ^ h.cluster_bits % 512 ≡ 0 =
      ap (λ b. 2 ^ b % 512) e ∙ pow_aligned (h.cluster_bits - 9) in
    (low, high, even, omega arith)

-- Where a byte stands to a stretch.
pub place_of :
    (x offset n : ℕ) → (x < offset) ⊎ (offset + n ≤ x) ⊎ ((k : ℕ) × (k < n) × (offset + k ≡ x))
place_of x offset n = elim (dec_lt x offset) [
  | yes before ↦ inl before
  | no h ↦ elim (dec_lt x (offset + n)) [
    | yes within ↦ inr (inr (x - offset, omega arith, omega arith))
    | no behind ↦ inr (inl (omega arith))
  ]
]

-- A cluster of `size` bytes below `limit`, all of one owner.
pub record Owns (own : ℕ → Owner) (size limit offset : ℕ) (u : Owner) : Type 0 where
  pub inside : offset + size ≤ limit
  pub mine : (k : ℕ) → k < size → own (offset + k) ≡ u

pub apart :
    {own : ℕ → Owner} {size limit offset : ℕ} {u : Owner} (x : ℕ) (w : Owner)
    → Owns own size limit offset u
    → own x ≡ w
    → u ≢ w
    → (x < offset) ⊎ (offset + size ≤ x)
apart {own} {size} {offset = offset} x w o at ne = elim (place_of x offset size) [
  | inl before ↦ inl before
  | inr (inl behind) ↦ inr behind
  | inr (inr (k, l, e)) ↦ absurd (ne (sym (o.mine k l) ∙ ap own e ∙ at))
]

module _ {B : Type 0} where
  -- Where the L2 table of an L1 index stands; 0 if there is none.
  abbrev pub table_offset : Qcow2File B → ℕ → ℕ
  table_offset q i = l1_offset (get_or q.l1_table i 0)

  -- An entry of an L2 table, in the cache or else in the file.
  unfoldable pub slot : Qcow2File B → ℕ → ℕ → ℕ
  slot q i j = elim (find i q.l2_cache) [
    | some e ↦ get_or e.entries j 0
    | none ↦ number_at q.file (table_offset q i + j * 8)
  ]

  pub slot_cached :
      (q : Qcow2File B) (i j : ℕ) (e : L2CacheEntry)
      → find i q.l2_cache ≡ some e
      → slot q i j ≡ get_or e.entries j 0
  unfolding slot
  slot_cached q i j e h = rw (slot, h) refl

  pub slot_missing :
      (q : Qcow2File B) (i j : ℕ)
      → find i q.l2_cache ≡ none
      → slot q i j ≡ number_at q.file (table_offset q i + j * 8)
  unfolding slot
  slot_missing q i j h = rw (slot, h) refl

  -- The cluster at an offset belongs to the owner.
  abbrev pub Holds : (ℕ → Owner) → Qcow2File B → ℕ → Owner → Type 0
  Holds own q offset u = Owns own (cluster_size q.header) q.next_alloc_offset offset u

  pub record IsLaid (own : ℕ → Owner) (q : Qcow2File B) : Type 0 where
    pub sized : IsSized q.header
    pub l1_len : length q.l1_table ≡ q.header.l1_size
    pub l1_small : q.header.l1_size < 2 ^ 32
    pub small : q.header.size < 2 ^ 64
    pub covers :
        q.header.size ≤ q.header.l1_size * l2_entries_per_table q.header * cluster_size q.header
    pub whole : q.file.len ≡ q.next_alloc_offset
    pub aligned : q.next_alloc_offset % 512 ≡ 0
    pub begun : cluster_size q.header ≤ q.next_alloc_offset
    pub tables : (i : ℕ) → table_offset q i ≢ 0 → Holds own q (table_offset q i) (table i)
    pub blocks :
        (j : ℕ) → get_or q.refcount_table j 0 ≢ 0 → Holds own q (get_or q.refcount_table j 0) block
    pub fits :
        (i j : ℕ) → table_offset q i ≢ 0 → j < l2_entries_per_table q.header → slot q i j < 2 ^ 64
    pub plain :
        (i j : ℕ)
        → table_offset q i ≢ 0
        → j < l2_entries_per_table q.header
        → is_compressed (slot q i j) ≡ false
    pub guests :
        (i j : ℕ)
        → table_offset q i ≢ 0
        → j < l2_entries_per_table q.header
        → l2_offset (slot q i j) ≢ 0
        → Holds own q (l2_offset (slot q i j)) (guest i j)

  -- A cached table is that of its L1 index, and a clean one is what the file has.
  pub record IsCached (q : Qcow2File B) (i : ℕ) (e : L2CacheEntry) : Type 0 where
    pub present : table_offset q i ≢ 0
    pub in_place : e.host_offset ≡ table_offset q i
    pub full : length e.entries ≡ l2_entries_per_table q.header
    pub all64 : All64 e.entries
    pub clean :
        e.dirty ≡ false
        → (j : ℕ) → j < l2_entries_per_table q.header
        → get_or e.entries j 0 ≡ number_at q.file (table_offset q i + j * 8)

  abbrev pub IsCoherent : Qcow2File B → Type 0
  IsCoherent q = (i : ℕ) (e : L2CacheEntry) → find i q.l2_cache ≡ some e → IsCached q i e
