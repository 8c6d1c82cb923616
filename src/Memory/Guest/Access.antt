-- ===== src/Memory/Guest/Access.antt =====
-- Reads and writes of guest memory: bounds, and what a read sees of the writes before it.
use clone.Prelude.{
  ap, ◌∙◌, ◌>>=◌, ℕ, ◌+◌, ◌^◌, ◌≤◌, ◌<◌, ◌≡◌, ◌⊎◌, inl, inr, some, List, arith, length,
  Option-cases, ◌++◌, length-append,
}
use clone.Memory.Store.{
  Store, load, store, load-store_self, load-store_disjoint, store-append, length-load,
}
use clone.Memory.Guest.{GuestMem, gpa_to_offset, read_at, write_at}
use clone.Memory.Guest.Translate.{IsLaidOut, gpa_to_offset-lt, gpa_to_offset-apart}

module _ {m : GuestMem} (s : Store) (gpa : ℕ) (v : IsLaidOut m) where
  -- A write that succeeds stays inside the allocation.
  pub write_at-inv :
      (bytes : List ℕ) {t : Store}
      → length bytes < 2 ^ 63
      → write_at m s gpa bytes ≡ some t
      → (offset : ℕ) × (gpa_to_offset m gpa ≡ some offset)
        × (offset + length bytes ≤ m.size)
        × (t ≡ store s offset bytes)
  unfolding write_at
  write_at-inv bytes short e = elim (Option-cases (gpa_to_offset m gpa)) [
    | inl p ↦ ground arith
    | inr (offset, p) ↦
        let fits : offset + length bytes ≤ m.size =
          ground (arith, gpa_to_offset-lt {m = m} gpa {offset = offset} v p) in
        (offset, p, fits, ground (arith, gpa_to_offset-lt {m = m} gpa {offset = offset} v p))
  ]

  -- A read that succeeds returns the asked number of bytes, all from inside the allocation.
  pub read_at-inv :
      (len : ℕ) {bytes : List ℕ}
      → len < 2 ^ 63
      → read_at m s gpa len ≡ some bytes
      → (offset : ℕ) × (gpa_to_offset m gpa ≡ some offset)
        × (offset + len ≤ m.size)
        × (bytes ≡ load s offset len)
        × (length bytes ≡ len)
  unfolding read_at
  read_at-inv len {bytes} short e = elim (Option-cases (gpa_to_offset m gpa)) [
    | inl p ↦ ground arith
    | inr (offset, p) ↦
        let fits : offset + len ≤ m.size =
          ground (arith, gpa_to_offset-lt {m = m} gpa {offset = offset} v p) in
        let same : bytes ≡ load s offset len =
          ground (arith, gpa_to_offset-lt {m = m} gpa {offset = offset} v p) in
        (offset, p, fits, same, rw same (length-load s offset len))
  ]

  -- In a laid out guest memory, after a write of less than 2 ^ 63 bytes that succeeds, a read of
  -- the same address and length succeeds and returns what was written.
  pub read_at-write_at :
      (bytes : List ℕ) {t : Store}
      → length bytes < 2 ^ 63
      → write_at m s gpa bytes ≡ some t
      → read_at m t gpa (length bytes) ≡ some bytes
  unfolding read_at
  read_at-write_at bytes {t} short e =
      let (offset, p, fits, same) = write_at-inv bytes short e in
      rw (p, same, load-store_self s offset bytes) (ground arith)

  -- In a laid out guest memory, a write of less than 2 ^ 63 bytes that succeeds and lies on one
  -- side of the hole leaves what a read of any byte at another address returns as it was; addresses
  -- are below 2 ^ 64.
  pub read_at-write_at_ne :
      (bytes : List ℕ) (other : ℕ) {t : Store}
      → length bytes < 2 ^ 63
      → gpa < 2 ^ 64
      → other < 2 ^ 64
      → (gpa + length bytes ≤ m.hole_start) ⊎ (m.hole_end ≤ gpa)
      → (other < gpa) ⊎ (gpa + length bytes ≤ other)
      → write_at m s gpa bytes ≡ some t
      → read_at m t other 1 ≡ read_at m s other 1
  unfolding read_at
  read_at-write_at_ne bytes other {t} short ha hb side away e =
      let (offset, p, fits, same) = write_at-inv bytes short e in
      elim (Option-cases (gpa_to_offset m other)) [
        | inl q ↦ rw q
        | inr (there, q) ↦
            rw (q, same)
              (ground (
                arith,
                load-store_disjoint s offset bytes there 1,
                gpa_to_offset-apart {m = m} gpa (length bytes) other {i = offset} {j = there} v ha
                    hb side away p q,
              ))
      ]

-- In a laid out guest memory, a write that begins below the hole and runs past its start, with the
-- memory for it, succeeds, and its tail is then read at the addresses from the hole's end on: the
-- code does not check that an access ends before the hole.
pub write_at_crosses_hole :
    {m : GuestMem} (s : Store) (gpa : ℕ) (low high : List ℕ)
    → IsLaidOut m
    → 0 < length low
    → 0 < length high
    → gpa + length low ≡ m.hole_start
    → gpa + length (low ++ high) ≤ m.size
    → (t : Store) × (write_at m s gpa (low ++ high) ≡ some t)
      × (read_at m t m.hole_end (length high) ≡ some high)
unfolding write_at read_at gpa_to_offset
write_at_crosses_hole {m} s gpa low high v hl hh at fits = (
  store s gpa (low ++ high),
  ground (arith, length-append low high),
  rw (landed, ◌>>=◌)
      (rw tail (
        rw (load-store_self (store s gpa low) m.hole_start high)
          (ground (arith, length-append low high)))),
)
  where
    landed : gpa_to_offset m m.hole_end ≡ some m.hole_start
    landed = ground (arith, length-append low high)

    tail : store s gpa (low ++ high) ≡ store (store s gpa low) m.hole_start high
    tail = store-append s gpa low high ∙ ap (λ k. store (store s gpa low) k high) at
