-- ===== src/Memory/Guest/Translate.antt =====
-- What the translation of guest physical addresses promises.
use clone.Prelude.{
  ℕ, ◌+◌, ◌-◌, ◌^◌, ◌≤◌, ◌<◌, ◌≡◌, ◌≢◌, ◌↔◌, ◌⊎◌, none, some, arith, leb, ltb, ◌&&◌, if◌then◌else◌,
}
use clone.Memory.Guest.{GuestMem, gpa_to_offset, guest_phys_size}

-- What the VMM sets up: no hole, or a hole that begins inside the allocation.
pub record IsLaidOut (m : GuestMem) : Type 0 where
  pub start_in : m.hole_start ≤ m.size
  pub ordered : m.hole_start ≤ m.hole_end
  pub no_hole : (0 < m.hole_start) ⊎ (m.hole_end ≡ 0)
  pub small : m.size + m.hole_end < 2 ^ 63

-- The addresses that have memory behind them.
abbrev pub IsBacked : GuestMem → ℕ → Type 0
IsBacked m gpa = ((gpa < m.hole_start) ⊎ (m.hole_end ≤ gpa)) × (gpa < guest_phys_size m)

-- Every offset that the translation gives lies inside the allocation.
pub gpa_to_offset-lt :
    {m : GuestMem} (gpa : ℕ) {offset : ℕ}
    → IsLaidOut m
    → gpa_to_offset m gpa ≡ some offset
    → offset < m.size
unfolding gpa_to_offset
gpa_to_offset-lt gpa v e = ground arith

-- In a laid out guest memory, two addresses below 2 ^ 64 with one offset are the same address: no
-- memory is aliased.
pub gpa_to_offset-injective :
    {m : GuestMem} (a b : ℕ) {offset : ℕ}
    → IsLaidOut m
    → a < 2 ^ 64
    → b < 2 ^ 64
    → gpa_to_offset m a ≡ some offset
    → gpa_to_offset m b ≡ some offset
    → a ≡ b
unfolding gpa_to_offset
gpa_to_offset-injective a b v ha hb ea eb = ground arith

-- In a laid out guest memory (no hole, or a hole that begins inside the allocation; sizes below 2 ^
-- 63), an address below 2 ^ 64 is translated exactly when it is backed: below the hole or from its
-- end on, and within the guest's physical size.
pub gpa_to_offset-IsBacked :
    {m : GuestMem} (gpa : ℕ)
    → IsLaidOut m
    → gpa < 2 ^ 64
    → (gpa_to_offset m gpa ≢ none) ↔ IsBacked m gpa
unfolding gpa_to_offset guest_phys_size
gpa_to_offset-IsBacked gpa v h = (λ t. ground arith, λ t. ground arith)

-- In a laid out guest memory every byte of the allocation is the memory of some address: nothing of
-- it is wasted.
pub gpa_of_offset :
    {m : GuestMem} (offset : ℕ)
    → IsLaidOut m
    → offset < m.size
    → (gpa : ℕ) × (gpa_to_offset m gpa ≡ some offset)
unfolding gpa_to_offset
gpa_of_offset {m} offset v h = (
  if leb m.hole_start offset && ltb 0 m.hole_start
      then m.hole_end + (offset - m.hole_start)
      else offset,
  ground arith,
)

-- Addresses outside a range that does not meet the hole's start have offsets outside it.
pub gpa_to_offset-apart :
    {m : GuestMem} (gpa n other : ℕ) {i j : ℕ}
    → IsLaidOut m
    → gpa < 2 ^ 64
    → other < 2 ^ 64
    → (gpa + n ≤ m.hole_start) ⊎ (m.hole_end ≤ gpa)
    → (other < gpa) ⊎ (gpa + n ≤ other)
    → gpa_to_offset m gpa ≡ some i
    → gpa_to_offset m other ≡ some j
    → (j + 1 ≤ i) ⊎ (i + n ≤ j)
unfolding gpa_to_offset
gpa_to_offset-apart {m} gpa n other v ha hb side away p q = ground arith
