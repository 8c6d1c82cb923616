-- ===== src/Virtio/Queue/Used.antt =====
-- push_used: what the driver reads in the used ring afterwards.
use clone.Prelude.{
  ℕ, ◌+◌, ◌*◌, ◌%◌, ◌^◌, ◌≤◌, ◌<◌, ◌≡◌, ◌∙◌, ap, sym, ◌⊎◌, inl, inr, some, Option, true, false,
  arith, to_le, from_le, ret, Exec,
}
use clone.Memory.Store.{
  Store, load, store, store_outside, from_le-load-store, from_le-load-store_disjoint,
}
use clone.Virtio.Queue.{Virtqueue, add64, slice_offset, used_elem, push_elem, push_used}
use clone.Virtio.Queue.Access.{slice_offset-low, read_uint-at, write_uint-at}

-- The queue is in use, and its used ring lies in memory, below the hole if there is one.
pub record IsPlaced (q : Virtqueue) : Type 0 where
  pub is_ready : q.ready ≡ true
  pub present : q.mem_is_null ≡ false
  pub sized : 0 < q.size
  pub below : (q.hole_start ≡ 0) ⊎ (q.used_ring + 4 + q.size * 8 ≤ q.hole_start)
  pub inside : q.used_ring + 4 + q.size * 8 ≤ q.guest_mem_size
  pub small : q.guest_mem_size < 2 ^ 63

-- used.idx, and where the element of the ring stands that it names.
unfoldable pub used_idx : Virtqueue → Store → ℕ
used_idx q s = from_le (load s (q.used_ring + 2) 2)

abbrev pub elem_at : Virtqueue → ℕ → ℕ
elem_at q i = q.used_ring + 4 + i % q.size * 8

-- The three writes that push_used makes, at used.idx `i`.
unfoldable pub pushed : Virtqueue → Store → ℕ → ℕ → ℕ → Store
pushed q s i d b =
    store (store (store s (elem_at q i) (to_le 4 d)) (elem_at q i + 4) (to_le 4 b))
      (q.used_ring + 2) (to_le 2 ((i + 1) % 2 ^ 16))

module _ {q : Virtqueue} (v : IsPlaced q) where
  ring_slice :
      (gpa len : ℕ)
      → q.used_ring ≤ gpa
      → 0 < len
      → gpa + len ≤ q.used_ring + 4 + q.size * 8
      → slice_offset q gpa len ≡ some gpa
  ring_slice gpa len above some_len fits = elim v.below [
    | inl h ↦
        slice_offset-low q gpa len v.present (inl h) some_len (omega (arith, v.inside)) v.small
    | inr h ↦
        slice_offset-low q gpa len v.present (inr (omega (arith, h))) some_len
          (omega (arith, v.inside)) v.small
  ]

  elem_in : (i : ℕ) → elem_at q i + 8 ≤ q.used_ring + 4 + q.size * 8
  elem_in i = omega (arith, v.sized)

  elem_gpa : (i : ℕ) → used_elem q i ≡ elem_at q i
  elem_gpa i = omega (arith, elem_in i, v.inside, v.small)

  id_slice : (i : ℕ) → slice_offset q (used_elem q i) 4 ≡ some (elem_at q i)
  id_slice i =
      rw (elem_gpa i)
        (ring_slice (elem_at q i) 4 (omega arith) (omega arith) (omega (arith, elem_in i)))

  len_slice : (i : ℕ) → slice_offset q (add64 (used_elem q i) 4) 4 ≡ some (elem_at q i + 4)
  len_slice i =
      ap (λ g. slice_offset q g 4) (omega (arith, elem_gpa i, elem_in i, v.inside, v.small))
      ∙ ring_slice (elem_at q i + 4) 4 (omega arith) (omega arith) (omega (arith, elem_in i))

  idx_slice : slice_offset q (add64 q.used_ring 2) 2 ≡ some (q.used_ring + 2)
  idx_slice =
      ap (λ g. slice_offset q g 2) (omega (arith, v.inside, v.small))
      ∙ ring_slice (q.used_ring + 2) 2 (omega arith) (omega arith) (omega (arith, v.sized))

  push_elem_lem : (s : Store) (i d b : ℕ) → push_elem q s i d b ≡ (some tt, pushed q s i d b)
  unfolding push_elem pushed
  push_elem_lem s i d b =
      let s₁ = store s (elem_at q i) (to_le 4 d) in
      let s₂ = store s₁ (elem_at q i + 4) (to_le 4 b) in
      rw (
        write_uint-at q s (used_elem q i) 4 d (id_slice i),
        write_uint-at q s₁ (add64 (used_elem q i) 4) 4 b (len_slice i),
        write_uint-at q s₂ (add64 q.used_ring 2) 2 ((i + 1) % 2 ^ 16) idx_slice,
      )

  push_used_lem :
      (s : Store) (d b : ℕ) → push_used q s d b ≡ ret (some tt, pushed q s (used_idx q s) d b)
  unfolding push_used used_idx
  push_used_lem s d b = ground (
    arith,
    v.is_ready,
    v.present,
    v.sized,
    push_elem_lem s (used_idx q s) d b,
    read_uint-at q s (add64 q.used_ring 2) 2 idx_slice,
  )

-- What the driver sees of one completion: the element that used.idx named holds the head and the
-- length, and used.idx has moved on by one, going round at 2 ^ 16.
pub record IsCompletion (q : Virtqueue) (s : Store) (d b : ℕ) (t : Store) : Type 0 where
  pub id : from_le (load t (elem_at q (used_idx q s)) 4) ≡ d
  pub len : from_le (load t (elem_at q (used_idx q s) + 4) 4) ≡ b
  pub idx : used_idx q t ≡ (used_idx q s + 1) % 2 ^ 16

module _ (q : Virtqueue) (s : Store) (i d b : ℕ) where
  id-pushed : d < 2 ^ 16 → from_le (load (pushed q s i d b) (elem_at q i) 4) ≡ d
  unfolding pushed
  id-pushed h =
      let s₁ = store s (elem_at q i) (to_le 4 d) in
      let s₂ = store s₁ (elem_at q i + 4) (to_le 4 b) in
      from_le-load-store_disjoint s₂ (q.used_ring + 2) 2 ((i + 1) % 2 ^ 16) (elem_at q i) 4
        (inr (omega arith))
      ∙ from_le-load-store_disjoint s₁ (elem_at q i + 4) 4 b (elem_at q i) 4 (inl (omega arith))
      ∙ from_le-load-store s (elem_at q i) 4 d (omega arith)

  len-pushed : b < 2 ^ 32 → from_le (load (pushed q s i d b) (elem_at q i + 4) 4) ≡ b
  unfolding pushed
  len-pushed h =
      let s₁ = store s (elem_at q i) (to_le 4 d) in
      let s₂ = store s₁ (elem_at q i + 4) (to_le 4 b) in
      from_le-load-store_disjoint s₂ (q.used_ring + 2) 2 ((i + 1) % 2 ^ 16) (elem_at q i + 4) 4
        (inr (omega arith))
      ∙ from_le-load-store s₁ (elem_at q i + 4) 4 b (omega arith)

  idx-pushed : used_idx q (pushed q s i d b) ≡ (i + 1) % 2 ^ 16
  unfolding pushed used_idx
  idx-pushed =
      from_le-load-store (store (store s (elem_at q i) (to_le 4 d)) (elem_at q i + 4) (to_le 4 b))
        (q.used_ring + 2) 2 ((i + 1) % 2 ^ 16) (omega arith)

  others-pushed :
      (j : ℕ)
      → (j < q.used_ring + 2) ⊎ (q.used_ring + 4 ≤ j)
      → (j < elem_at q i) ⊎ (elem_at q i + 8 ≤ j)
      → pushed q s i d b j ≡ s j
  unfolding pushed
  others-pushed j away apart =
      let s₁ = store s (elem_at q i) (to_le 4 d) in
      let s₂ = store s₁ (elem_at q i + 4) (to_le 4 b) in
      store_outside s₂ (q.used_ring + 2) (to_le 2 ((i + 1) % 2 ^ 16)) j (ground arith)
      ∙ store_outside s₁ (elem_at q i + 4) (to_le 4 b) j (ground arith)
      ∙ store_outside s (elem_at q i) (to_le 4 d) j (ground arith)

-- On a ready queue of nonzero size whose used ring lies in memory below any hole, for a head below
-- 2 ^ 16 and a length below 2 ^ 32, push_used always succeeds, and in the memory that it leaves the
-- element that used.idx named holds the head and the length, and used.idx has moved on by one
-- modulo 2 ^ 16.
pub push_used-IsCompletion :
    {q : Virtqueue} (s : Store) (d b : ℕ)
    → IsPlaced q
    → d < 2 ^ 16
    → b < 2 ^ 32
    → (t : Store) × (push_used q s d b ≡ ret (some tt, t)) × IsCompletion q s d b t
push_used-IsCompletion {q} s d b v hd hb =
    let i = used_idx q s in
    (
      pushed q s i d b,
      push_used_lem v s d b,
      record {
        id = id-pushed q s i d b hd;
        len = len-pushed q s i d b hb;
        idx = idx-pushed q s i d b;
      },
    )

ret-injective :
    {o o' : Option (Unit {0})} {s t : Store}
    → ◌≡◌ {A = Exec (Option (Unit {0}) × Store)} (ret (o, s)) (ret (o', t))
    → s ≡ t
ret-injective e = cc

-- On a ready queue of nonzero size whose used ring lies in memory below any hole, push_used changes
-- no byte but those of used.idx and of the element that used.idx named.
pub push_used-others :
    {q : Virtqueue} (s : Store) (d b j : ℕ) {t : Store} {o : Option (Unit {0})}
    → IsPlaced q
    → (j < q.used_ring + 2) ⊎ (q.used_ring + 4 ≤ j)
    → (j < elem_at q (used_idx q s)) ⊎ (elem_at q (used_idx q s) + 8 ≤ j)
    → push_used q s d b ≡ ret (o, t)
    → t j ≡ s j
push_used-others {q} s d b j v away apart e =
    ap (λ (m : Store). m j) (sym (ret-injective (sym (push_used_lem v s d b) ∙ e)))
    ∙ others-pushed q s (used_idx q s) d b j away apart
