-- ===== src/Memory/Guest.antt =====
-- memory/mod.rs: GuestMem, the guest's physical memory in one host allocation, which on a large VM
-- skips the MMIO hole. Every usize or u64 sum wraps at 2 ^ 64, as in a release build.
pub mod Translate
pub mod Access
mod Tests
use clone.Prelude.{
  ℕ, ◌+◌, ◌-◌, ◌%◌, ◌^◌, Option, none, some, List, Bool, ltb, leb, ◌==◌, if◌then◌else◌, length,
  ◌>>=◌,
}
use clone.Memory.Store.{Store, load, store}

-- The host pointer is the store's offset 0.
pub record GuestMem : Type 0 where
  pub size : ℕ
  pub hole_start : ℕ
  pub hole_end : ℕ

abbrev pub add64 : ℕ → ℕ → ℕ
add64 a b = (a + b) % 2 ^ 64

abbrev pub sub64 : ℕ → ℕ → ℕ
sub64 a b = (a + (2 ^ 64 - b)) % 2 ^ 64

abbrev pub from_raw : ℕ → GuestMem
from_raw size = record { size = size; hole_start = 0; hole_end = 0 }

abbrev pub from_raw_with_hole : ℕ → ℕ → ℕ → GuestMem
from_raw_with_hole size hole_start hole_end = record {
  size = size;
  hole_start = hole_start;
  hole_end = hole_end;
}

abbrev pub has_hole : GuestMem → Bool
has_hole m = ltb 0 m.hole_start

-- A guest physical address as an offset into the allocation; `none` is the error.
unfoldable pub gpa_to_offset : GuestMem → ℕ → Option ℕ
gpa_to_offset m gpa =
    if m.hole_start == 0
    then (if leb m.size gpa then none else some gpa)
    else if ltb gpa m.hole_start
    then some gpa
    else if leb m.hole_end gpa
    then (let offset = add64 m.hole_start (gpa - m.hole_end) in
        if leb m.size offset then none else some offset)
    else none

unfoldable pub write_at : GuestMem → Store → ℕ → List ℕ → Option Store
write_at m s gpa bytes = do
  offset ← gpa_to_offset m gpa
  if ltb m.size (add64 offset (length bytes)) then none else some (store s offset bytes)

unfoldable pub read_at : GuestMem → Store → ℕ → ℕ → Option (List ℕ)
read_at m s gpa len = do
  offset ← gpa_to_offset m gpa
  if ltb m.size (add64 offset len) then none else some (load s offset len)

unfoldable pub guest_phys_size : GuestMem → ℕ
guest_phys_size m =
    if m.hole_start == 0 then m.size else add64 m.hole_end (sub64 m.size m.hole_start)
