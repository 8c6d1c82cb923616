-- ===== src/Storage/Qcow2/Image/Assoc.antt =====
-- About storage/qcow2.rs: Qcow2File.
-- The map of cached tables: what is found after each operation.
use clone.Prelude.{
  ℕ, ◌≡◌, refl, ◌⊎◌, inl, inr, none, some, arith, ◌==◌, ltb, if◌then◌else◌, Bool, true, false,
  subst, ◌∙◌, [], ◌∷◌,
}
use clone.Storage.Qcow2.Image.{L2CacheEntry, Cache, find, insert, remove, oldest, oldest_from}

pub find-insert :
    (j k : ℕ) (e : L2CacheEntry) (cache : Cache)
    → find j (insert k e cache) ≡ (if k == j then some e else find j cache)
unfolding find insert
find-insert j k e [] = refl
find-insert j k e ((i, f) ∷ cache) = ground (arith, find-insert j k e cache)

pub find-remove :
    (j k : ℕ) (cache : Cache) → find j (remove k cache) ≡ (if k == j then none else find j cache)
unfolding find remove
find-remove j k [] = ground arith
find-remove j k ((i, f) ∷ cache) = ground (arith, find-remove j k cache)

abbrev pub IsFound : ℕ → Cache → Type 0
IsFound k cache = (e : L2CacheEntry) × (find k cache ≡ some e)

IsFound-here : (k i : ℕ) (f : L2CacheEntry) (cache : Cache) → k ≡ i → IsFound k ((i, f) ∷ cache)
unfolding find
IsFound-here k i f cache h = (f, ground arith)

IsFound-behind :
    (k i : ℕ) (f : L2CacheEntry) (cache : Cache) → IsFound k cache → IsFound k ((i, f) ∷ cache)
unfolding find
IsFound-behind k i f cache (e, h) = (if i == k then f else e, ground arith)

either : (t : Bool) (i k : ℕ) → ((if t then i else k) ≡ k) ⊎ ((if t then i else k) ≡ i)
either true i k = inr refl
either false i k = inl refl

oldest_from-IsFound :
    (k access : ℕ) (cache : Cache)
    → (oldest_from k access cache ≡ k) ⊎ IsFound (oldest_from k access cache) cache
unfolding oldest_from
oldest_from-IsFound k access [] = inl refl
oldest_from-IsFound k access ((i, f) ∷ cache) =
    let less = ltb f.last_access access in
    let k' = if less then i else k in
    let access' = if less then f.last_access else access in
    elim (oldest_from-IsFound k' access' cache) [
      | inr later ↦ inr (IsFound-behind (oldest_from k' access' cache) i f cache later)
      | inl e ↦ elim (either less i k) [
        | inl old ↦ inl (e ∙ old)
        | inr new ↦ inr (IsFound-here (oldest_from k' access' cache) i f cache (e ∙ new))
      ]
    ]

-- The victim of an eviction is in the map.
pub oldest-IsFound : (cache : Cache) (k : ℕ) → oldest cache ≡ some k → IsFound k cache
unfolding oldest
oldest-IsFound [] k h = cc
oldest-IsFound ((i, f) ∷ cache) k h =
    subst (λ n. IsFound n ((i, f) ∷ cache)) (ground arith)
      (elim (oldest_from-IsFound i f.last_access cache) [
        | inl e ↦ IsFound-here (oldest_from i f.last_access cache) i f cache e
        | inr later ↦ IsFound-behind (oldest_from i f.last_access cache) i f cache later
      ])
