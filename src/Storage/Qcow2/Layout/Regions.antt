-- ===== src/Storage/Qcow2/Layout/Regions.antt =====
-- The regions of a new image, and whether the refcounts of its metadata fit their blocks.
use clone.Prelude.{ℕ, ◌+◌, ◌-◌, ◌*◌, ◌/◌, ◌%◌, ◌^◌, ◌≤◌, ◌<◌, ◌≡◌, refl, arith}
use native.Mathlib.Nat.{
  mod-lt, div-lt_iff_lt-mul, mul-div_cancel, mul-mod_left, mul-le-mul_right, pow-le-pow_right,
}
use native.Mathlib.Decide.{dec_lt}
use clone.Storage.Qcow2.Layout.{Layout, div_round_up, place, layout, refcount_offset}

-- div_round_up gives the least number of `b`s that hold `a`.
div_round_up_least :
    (a b : ℕ) → 0 < b → a + b ≤ 2 ^ 64 → (a ≤ div_round_up a b * b) × (div_round_up a b * b < a + b)
unfolding div_round_up
div_round_up_least a b h w =
    let e : (a + b - 1) % 2 ^ 64 ≡ a + b - 1 = omega arith in rw e (grind arith)

mul_unique : (q k b : ℕ) → k * b ≤ q * b → q * b < k * b + b → q ≡ k
mul_unique q k b l u = elim (dec_lt q k) [
  | yes h ↦ absurd (grind arith)
  | no h ↦ elim (dec_lt k q) [ yes g ↦ absurd (grind arith) | no g ↦ omega arith ]
]

div_round_up-mul : (k b : ℕ) → 0 < b → k * b + b ≤ 2 ^ 64 → div_round_up (k * b) b ≡ k
div_round_up-mul k b h w =
    let (low, high) = div_round_up_least (k * b) b h w in
    mul_unique (div_round_up (k * b) b) k b low high

div_round_up_one : (a b : ℕ) → 0 < a → a ≤ b → a + b ≤ 2 ^ 64 → div_round_up a b ≡ 1
div_round_up_one a b p h w =
    let (low, high) = div_round_up_least a b (omega arith) w in
    mul_unique (div_round_up a b) 1 b (grind arith) (omega arith)

-- The regions of a new image stand behind one another, and are the metadata clusters counted.
regions_tile :
    (cluster_size l1_size l1_clusters : ℕ)
    → let l = place cluster_size l1_size l1_clusters in
      (l.refcount_table_offset ≡ l.cluster_size)
      × (l.first_rc_block_offset ≡ l.refcount_table_offset + l.rc_table_clusters * l.cluster_size)
      × (l.l1_table_offset ≡ l.first_rc_block_offset + l.rc_blocks_needed * l.cluster_size)
      × (l.file_end ≡ l.l1_table_offset + l.l1_clusters * l.cluster_size)
      × (l.file_end ≡ l.total_meta_clusters * l.cluster_size)
unfolding place
regions_tile cluster_size l1_size l1_clusters = (refl, refl, refl, refl, omega arith)

slot_in_block : (q r half n : ℕ) → q < n → r < half → q * (2 * half) + r * 2 + 2 ≤ n * (2 * half)
slot_in_block q r half n p h =
    let rows : (q + 1) * (2 * half) ≤ n * (2 * half) = grind arith in omega arith

-- In a layout of two bytes to a refcount whose L1 table stands behind its refcount blocks, where
-- those blocks have room for every metadata cluster, the refcount of each metadata cluster is
-- written inside the blocks.
pub refcount_in_blocks :
    (l : Layout) (i : ℕ)
    → 0 < l.refcounts_per_block
    → l.cluster_size ≡ 2 * l.refcounts_per_block
    → l.l1_table_offset ≡ l.first_rc_block_offset + l.rc_blocks_needed * l.cluster_size
    → l.total_meta_clusters ≤ l.rc_blocks_needed * l.refcounts_per_block
    → i < l.total_meta_clusters
    → (l.first_rc_block_offset ≤ refcount_offset l i)
      × (refcount_offset l i + 2 ≤ l.l1_table_offset)
unfolding refcount_offset
refcount_in_blocks l i pos even at room h = (
  omega arith,
  rw (even, at, even)
      (omega (
        arith,
        slot_in_block (i / l.refcounts_per_block) (i % l.refcounts_per_block) l.refcounts_per_block
            l.rc_blocks_needed block_lt (mod-lt i pos),
      )),
)
  where
    block_lt : i / l.refcounts_per_block < l.rc_blocks_needed
    block_lt = (div-lt_iff_lt-mul pos).1 (omega arith)

half_twice : (half : ℕ) → half * 2 / 2 ≡ half
half_twice half = omega arith

-- If header, refcount table and block, and L1 table have refcounts in one block of `half` entries,
-- with `half` from 4 up to 2 ^ 32, the layout has one refcount block and one table cluster, and the
-- block covers every metadata cluster.
pub one_block :
    (half l1_size l1_clusters : ℕ)
    → 4 ≤ half
    → half < 2 ^ 32
    → 3 + l1_clusters ≤ half
    → let l = place (half * 2) l1_size l1_clusters in
      (l.rc_blocks_needed ≡ 1)
      × (l.rc_table_clusters ≡ 1)
      × (l.total_meta_clusters ≤ l.rc_blocks_needed * l.refcounts_per_block)
unfolding place
one_block half l1_size l1_clusters big small fits =
    rw
      (
        half_twice half,
        div_round_up_one (3 + l1_clusters) half (omega arith) fits (omega arith),
        div_round_up_one 8 (half * 2) (omega arith) (omega arith) (omega arith),
      )
      (refl, refl, omega arith)

-- If header, refcount table and block, and L1 table fill exactly `k` refcount blocks of `half`
-- entries, with `k` at least 2, the blocks' addresses fitting one cluster and `half` below 2 ^ 31,
-- then the metadata has more clusters than the blocks have refcounts, and the refcount of cluster
-- `k * half` is written to the first entry of the L1 table.
pub refcount_overruns :
    (half k l1_size l1_clusters : ℕ)
    → 2 ≤ k
    → k * 8 ≤ half * 2
    → half < 2 ^ 31
    → 3 + l1_clusters ≡ k * half
    → let l = place (half * 2) l1_size l1_clusters in
      (k * half < l.total_meta_clusters) × (refcount_offset l (k * half) ≡ l.l1_table_offset)
unfolding place refcount_offset
refcount_overruns half k l1_size l1_clusters two fits small exact =
    let bounded : k * half ≤ k * 2 ^ 31 = grind arith in
    rw
      (
        half_twice half,
        exact,
        div_round_up-mul k half (omega arith) (omega arith),
        div_round_up_one (k * 8) (half * 2) (omega arith) fits (omega arith),
      )
      (
        omega arith,
        rw (mul-div_cancel k {n = half} (omega arith), mul-mod_left k half) (omega arith),
      )

-- The L1 entries that a cluster size gives a disk, before the cast.
covered :
    (v c : ℕ)
    → 512 ≤ c
    → c ≤ 2 ^ 21
    → v < 2 ^ 46
    → let l1_size = div_round_up (div_round_up v c) (c / 8) in
      (l1_size < 2 ^ 32) × (v ≤ l1_size * (c / 8) * c)
covered v c lo hi h =
    let total = div_round_up v c in
    let e = c / 8 in
    let n = div_round_up total e in
    let (v_le, lt_v) = div_round_up_least v c (omega arith) (omega arith) in
    let few : total * 512 ≤ total * c = grind arith in
    let (total_le, lt_total) = div_round_up_least total e (omega arith) (omega arith) in
    (
      elim (dec_lt n (2 ^ 32)) [
        | yes few_entries ↦ few_entries
        | no many ↦
            absurd (let rows : 2 ^ 32 * e ≤ n * e = mul-le-mul_right e (omega arith) in omega arith)
      ],
      (let rows : total * c ≤ n * e * c = mul-le-mul_right c total_le in omega arith),
    )

-- For cluster_bits from 9 to 21 and a virtual size below 2 ^ 46, the L1 table of a new image has an
-- entry for every byte of the disk (an entry is for a cluster full of 8-byte L2 entries), its
-- clusters have room for its entries, and the file ends exactly behind the metadata clusters that
-- are counted.
pub l1_covers :
    (virtual_size cluster_bits : ℕ)
    → 9 ≤ cluster_bits
    → cluster_bits ≤ 21
    → virtual_size < 2 ^ 46
    → let l = layout virtual_size cluster_bits in
      (virtual_size ≤ l.l1_size * (l.cluster_size / 8) * l.cluster_size)
      × (l.l1_size * 8 ≤ l.l1_clusters * l.cluster_size)
      × (l.file_end ≡ l.total_meta_clusters * l.cluster_size)
unfolding layout
l1_covers virtual_size cluster_bits lo hi h =
    let c = 2 ^ cluster_bits in
    let low : 512 ≤ c = pow-le-pow_right (omega arith) lo in
    let high : c ≤ 2 ^ 21 = pow-le-pow_right (omega arith) hi in
    let (small, cover) = covered virtual_size c low high h in
    let n = div_round_up (div_round_up virtual_size c) (c / 8) in
    let same : n % 2 ^ 32 ≡ n = omega arith in
    (
      rw same cover,
      rw same (div_round_up_least (n * 8) c (omega arith) (omega arith)).0,
      (regions_tile c (n % 2 ^ 32) (div_round_up (n % 2 ^ 32 * 8) c)).4,
    )
