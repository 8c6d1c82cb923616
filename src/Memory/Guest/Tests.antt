-- ===== src/Memory/Guest/Tests.antt =====
-- A small guest with a hole: 12 bytes, those from offset 8 on at the addresses from 16 on.
use clone.Prelude.{ℕ, ◌≡◌, ◌≢◌, refl, none, some, List, [], ◌∷◌, inl, inr, arith, ◌<◌, ◌≤◌, ◌⊎◌}
use clone.Memory.Store.{Store, store}
use clone.Memory.Guest.{GuestMem, gpa_to_offset, guest_phys_size, read_at, write_at}
use clone.Memory.Guest.Translate.{IsLaidOut, gpa_to_offset-IsBacked, gpa_to_offset-injective}
use clone.Memory.Guest.Access.{read_at-write_at, write_at_crosses_hole}

abbrev small : GuestMem
small = record { size = 12; hole_start = 8; hole_end = 16 }

abbrev blank : Store
blank j = 0

abbrev word : List ℕ
word = 1 ∷ 2 ∷ []

small-IsLaidOut : IsLaidOut small
small-IsLaidOut = record {
  start_in = omega arith;
  ordered = omega arith;
  no_hole = inl (omega arith);
  small = omega arith;
}

translations :
    (gpa_to_offset small 7 ≡ some 7)
    × (gpa_to_offset small 8 ≡ none)
    × (gpa_to_offset small 16 ≡ some 8)
    × (gpa_to_offset small 20 ≡ none)
    × (guest_phys_size small ≡ 20)
unfolding gpa_to_offset guest_phys_size
translations = (refl, refl, refl, refl, refl)

write_high : write_at small blank 17 word ≡ some (store blank 9 word)
unfolding write_at gpa_to_offset
write_high = refl

gpa_to_offset-IsBacked_example : gpa_to_offset small 19 ≢ none
gpa_to_offset-IsBacked_example =
    (gpa_to_offset-IsBacked {m = small} 19 small-IsLaidOut (omega arith)).1 backed
  where
    backed : ((19 < 8) ⊎ (16 ≤ 19)) × (19 < guest_phys_size small)
    backed = unfold guest_phys_size in (inr (omega arith), omega arith)

gpa_to_offset-injective_example : ◌≡◌ {A = ℕ} 16 16
unfolding gpa_to_offset
gpa_to_offset-injective_example =
    gpa_to_offset-injective {m = small} 16 16 {offset = 8} small-IsLaidOut (omega arith)
      (omega arith) refl refl

read_at-write_at_example : read_at small (store blank 9 word) 17 2 ≡ some word
read_at-write_at_example =
    read_at-write_at {m = small} blank 17 small-IsLaidOut word (omega arith) write_high

-- A write of two bytes at address 7, the last below the hole.
write_at_crosses_hole_example :
    (t : Store) × (write_at small blank 7 (1 ∷ 2 ∷ []) ≡ some t)
    × (read_at small t 16 1 ≡ some (2 ∷ []))
write_at_crosses_hole_example =
    write_at_crosses_hole {m = small} blank 7 (1 ∷ []) (2 ∷ []) small-IsLaidOut (omega arith)
      (omega arith) refl (omega arith)
