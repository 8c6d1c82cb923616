-- ===== src/Memory/Store.antt =====
-- The bytes behind the host pointer to guest memory, by offset. Code that reads or writes through
-- the pointer takes the store as an argument and returns the new one.
use clone.Prelude.{
  ℕ, zero, suc, ap, ◌++◌, ◌+◌, ◌≤◌, ◌<◌, ◌≡◌, refl, ap₂, ◌∙◌, ◌⊎◌, inl, inr, List, [], ◌∷◌, arith,
  ◌==◌, if◌then◌else◌, length, sym, to_le, from_le, Fits, from_le-to_le, length-to_le,
}

abbrev pub Store : Type 0
Store = ℕ → ℕ

abbrev pub put : Store → ℕ → ℕ → Store
put s i b = λ j. if j == i then b else s j

-- `n` bytes from offset `i` on: a slice.
abbrev pub load : Store → ℕ → ℕ → List ℕ
load s i zero = []
load s i (suc n) = s i ∷ load s (i + 1) n

-- copy_from_slice to offset `i`.
unfoldable pub store : Store → ℕ → List ℕ → Store
store s i [] = s
store s i (b ∷ bs) = store (put s i b) (i + 1) bs

pub length-load : (s : Store) (i n : ℕ) → length (load s i n) ≡ n
length-load s i zero = refl
length-load s i (suc n) = omega (arith, length-load s (i + 1) n)

-- A write leaves the bytes before it and behind it alone.
pub store_outside :
    (s : Store) (i : ℕ) (bs : List ℕ) (j : ℕ) → (j < i) ⊎ (i + length bs ≤ j) → store s i bs j ≡ s j
unfolding store
store_outside s i [] j h = refl
store_outside s i (b ∷ bs) j h = store_outside (put s i b) (i + 1) bs j (shifted h) ∙ missed
  where
    shifted : (j < i) ⊎ (i + suc (length bs) ≤ j) → (j < i + 1) ⊎ (i + 1 + length bs ≤ j)
    shifted (inl p) = inl (omega arith)
    shifted (inr p) = inr (omega arith)

    missed : put s i b j ≡ s j
    missed = ground arith

-- What was written is read back.
pub load-store_self : (s : Store) (i : ℕ) (bs : List ℕ) → load (store s i bs) i (length bs) ≡ bs
unfolding store
load-store_self s i [] = refl
load-store_self s i (b ∷ bs) =
    ap₂ ◌∷◌ (store_outside (put s i b) (i + 1) bs i (inl (omega arith)) ∙ ground arith)
      (load-store_self (put s i b) (i + 1) bs)

-- A read that does not meet a write sees the bytes from before.
pub load-store_disjoint :
    (s : Store) (i : ℕ) (bs : List ℕ) (j n : ℕ)
    → (j + n ≤ i) ⊎ (i + length bs ≤ j)
    → load (store s i bs) j n ≡ load s j n
load-store_disjoint s i bs j zero h = refl
load-store_disjoint s i bs j (suc n) h =
    ap₂ ◌∷◌ (store_outside s i bs j (first h)) (load-store_disjoint s i bs (j + 1) n (rest h))
  where
    first : (j + suc n ≤ i) ⊎ (i + length bs ≤ j) → (j < i) ⊎ (i + length bs ≤ j)
    first (inl p) = inl (omega arith)
    first (inr p) = inr p

    rest : (j + suc n ≤ i) ⊎ (i + length bs ≤ j) → (j + 1 + n ≤ i) ⊎ (i + length bs ≤ j + 1)
    rest (inl p) = inl (omega arith)
    rest (inr p) = inr (omega arith)

-- Two writes, one behind the other, are one.
pub store-append :
    (s : Store) (i : ℕ) (xs ys : List ℕ)
    → store s i (xs ++ ys) ≡ store (store s i xs) (i + length xs) ys
unfolding store
store-append s i [] ys = ap (λ k. store s k ys) (omega arith)
store-append s i (x ∷ xs) ys =
    store-append (put s i x) (i + 1) xs ys
    ∙ ap (λ k. store (store (put s i x) (i + 1) xs) k ys) (omega arith)

-- A number written is read back, and another is left alone.
pub from_le-load-store :
    (s : Store) (i width val : ℕ)
    → Fits width val
    → from_le (load (store s i (to_le width val)) i width) ≡ val
from_le-load-store s i width val h =
    ap (λ n. from_le (load (store s i (to_le width val)) i n)) (sym (length-to_le width val))
    ∙ ap from_le (load-store_self s i (to_le width val))
    ∙ from_le-to_le width val h

pub from_le-load-store_disjoint :
    (s : Store) (i width val j n : ℕ)
    → (j + n ≤ i) ⊎ (i + width ≤ j)
    → from_le (load (store s i (to_le width val)) j n) ≡ from_le (load s j n)
from_le-load-store_disjoint s i width val j n h =
    ap from_le (load-store_disjoint s i (to_le width val) j n (rw (length-to_le width val) h))
