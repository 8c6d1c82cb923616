-- ===== src/Virtio/Queue/Chain.antt =====
-- The descriptor walk of pop_avail: it ends, and it returns exactly the well-formed chains.
use clone.Prelude.{
  ℕ, zero, suc, ◌+◌, ◌≤◌, ◌<◌, ◌≡◌, ◌≢◌, refl, ◌⊎◌, inl, inr, some, List, [], ◌∷◌, true, false,
  arith, length, Option-cases,
}
use clone.Memory.Store.{Store}
use clone.Virtio.Queue.{
  Virtqueue, Descriptor, has_next, read_descriptor, Walk, walked, refused, exhausted, then_walked,
  walk,
}

module _ (q : Virtqueue) (s : Store) where
  -- The descriptors `ds` are those of the table from index `idx` on, linked by `next` and ended by
  -- the first that has no NEXT flag, at indices within the queue.
  abbrev pub IsChain : ℕ → List Descriptor → Type 0
  IsChain idx [] = ⊥
  IsChain idx (d ∷ []) =
      (idx < q.size) × (read_descriptor q s idx ≡ some d) × (has_next d.flags ≡ false)
  IsChain idx (d ∷ e ∷ ds) =
      (idx < q.size)
      × (read_descriptor q s idx ≡ some d)
      × (has_next d.flags ≡ true)
      × IsChain d.next (e ∷ ds)

  then_walked-ne-exhausted :
      (d : Descriptor) (w : Walk) → w ≢ exhausted → then_walked d w ≢ exhausted
  then_walked-ne-exhausted d (walked ds) h e = cc
  then_walked-ne-exhausted d refused h e = cc
  then_walked-ne-exhausted d exhausted h e = h refl

  -- The walk along a chain, with `seen` at most the queue's size, does not run out of fuel that is
  -- above the size less `seen`.
  pub walk-total :
      (fuel idx seen : ℕ)
      → seen ≤ q.size
      → q.size < fuel + seen
      → walk q s fuel idx seen ≢ exhausted
  unfolding walk
  walk-total zero idx seen l h = absurd (omega arith)
  walk-total (suc fuel) idx seen l h = elim (Option-cases (read_descriptor q s idx)) [
    | inl p ↦ ground arith
    | inr (d, p) ↦ ground (
      arith,
      then_walked-ne-exhausted d (walk q s fuel d.next (seen + 1)),
      walk-total fuel d.next (seen + 1),
    )
  ]

  then_walked-eq-walked :
      (d : Descriptor) (w : Walk) {ds : List Descriptor}
      → then_walked d w ≡ walked ds
      → (es : List Descriptor) × (w ≡ walked es) × (ds ≡ d ∷ es)
  then_walked-eq-walked d (walked es) h = (es, refl, cc)
  then_walked-eq-walked d refused h = cc
  then_walked-eq-walked d exhausted h = cc

  IsChain-cons :
      (idx : ℕ) (d : Descriptor) (es : List Descriptor)
      → idx < q.size
      → read_descriptor q s idx ≡ some d
      → has_next d.flags ≡ true
      → IsChain d.next es
      → IsChain idx (d ∷ es)
  IsChain-cons idx d [] i r n c = absurd c
  IsChain-cons idx d (e ∷ es) i r n c = (i, r, n, c)

  walk-step :
      (fuel idx seen : ℕ) (ds : List Descriptor)
      → walk q s (suc fuel) idx seen ≡ walked ds
      → (idx < q.size)
        × (seen < q.size)
        × (d : Descriptor) × (read_descriptor q s idx ≡ some d)
        × (((has_next d.flags ≡ false) × (ds ≡ d ∷ []))
            ⊎ ((has_next d.flags ≡ true)
                × (then_walked d (walk q s fuel d.next (seen + 1)) ≡ walked ds)))
  unfolding walk
  walk-step fuel idx seen ds e = elim (Option-cases (read_descriptor q s idx)) [
    | inl p ↦ ground arith
    | inr (d, p) ↦ (ground arith, ground arith, d, p, ground arith)
  ]

  -- What the loop returns is a chain, of no more descriptors than are left of the queue's size.
  pub walk-IsChain :
      (fuel idx seen : ℕ) (ds : List Descriptor)
      → walk q s fuel idx seen ≡ walked ds
      → IsChain idx ds × (seen + length ds ≤ q.size)
  walk-IsChain zero idx seen ds e = unfold walk in cc
  walk-IsChain (suc fuel) idx seen ds e =
      let (i, l, d, r, ends) = walk-step fuel idx seen ds e in
      elim ends [
        | inl (n, same) ↦ rw same ((i, r, n), omega arith)
        | inr (n, more) ↦
            let (es, w, same) = then_walked-eq-walked d (walk q s fuel d.next (seen + 1)) more in
            let (c, fits) = walk-IsChain fuel d.next (seen + 1) es w in
            rw same (IsChain-cons idx d es i r n c, omega arith)
      ]

  -- A chain that fits is what the loop returns.
  pub IsChain-walk :
      (fuel idx seen : ℕ) (ds : List Descriptor)
      → IsChain idx ds
      → seen + length ds ≤ q.size
      → length ds ≤ fuel
      → walk q s fuel idx seen ≡ walked ds
  unfolding walk
  IsChain-walk zero idx seen [] c l f = absurd c
  IsChain-walk zero idx seen (d ∷ ds) c l f = absurd (omega arith)
  IsChain-walk (suc fuel) idx seen [] c l f = absurd c
  IsChain-walk (suc fuel) idx seen (d ∷ []) c l f = ground arith
  IsChain-walk (suc fuel) idx seen (d ∷ e ∷ ds) c l f =
      ground (arith, IsChain-walk fuel d.next (seen + 1) (e ∷ ds) c.3)
