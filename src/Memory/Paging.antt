-- ===== src/Memory/Paging.antt =====
-- memory/mod.rs: the page tables and the descriptor table that are written for the boot.
pub mod Identity
mod Tests
use clone.Prelude.{
  ℕ, zero, suc, ◌+◌, ◌-◌, ◌*◌, ◌/◌, ◌%◌, ◌^◌, min, max, Option, none, some, List, [], ◌∷◌, ◌>>=◌,
  to_le,
}
use clone.Memory.Store.{Store}
use clone.Memory.Guest.{GuestMem, write_at, add64}

abbrev pub pml4_addr : ℕ
pml4_addr = 0x9000

abbrev pub pdpt_addr : ℕ
pdpt_addr = 0xA000

abbrev pub pd_base : ℕ
pd_base = 0x10000

abbrev pub gdt_addr : ℕ
gdt_addr = 0x500

-- The page directory of a gigabyte.
abbrev pub pd_addr : ℕ → ℕ
pd_addr gb = pd_base + gb * 0x1000

-- How many gigabytes are mapped: the sum wraps as a u64 does.
abbrev pub num_gb : ℕ → ℕ
num_gb mem_size = min (max (add64 mem_size (2 ^ 30 - 1) / 2 ^ 30) 1) 64

-- The bits of each sum are disjoint, so that `|` is `+`.
abbrev pub pd_entry : ℕ → ℕ → ℕ
pd_entry gb i = gb * 2 ^ 30 + i * 2 ^ 21 + 0x83

-- The first `n` rounds of the loop over a directory's entries.
unfoldable pub fill_pd : GuestMem → ℕ → ℕ → Store → Option Store
fill_pd m gb zero s = some s
fill_pd m gb (suc i) s = do
  s' ← fill_pd m gb i s
  write_at m s' (pd_addr gb + i * 8) (to_le 8 (pd_entry gb i))

-- The first `n` rounds of the loop over the gigabytes.
unfoldable pub map_gbs : GuestMem → ℕ → Store → Option Store
map_gbs m zero s = some s
map_gbs m (suc gb) s = do
  s' ← map_gbs m gb s
  s'' ← write_at m s' (pdpt_addr + gb * 8) (to_le 8 (pd_addr gb + 0x3))
  fill_pd m gb 512 s''

unfoldable pub setup_page_tables : GuestMem → Store → ℕ → Option Store
setup_page_tables m s mem_size = do
  s' ← write_at m s pml4_addr (to_le 8 (pdpt_addr + 0x3))
  map_gbs m (num_gb mem_size) s'

-- The null descriptor, an unused one, the code segment and the data segment.
abbrev pub gdt : List ℕ
gdt = 0 ∷ 0 ∷ 0x00AF_9B00_0000_FFFF ∷ 0x00CF_9300_0000_FFFF ∷ []

unfoldable pub write_descriptors : GuestMem → ℕ → List ℕ → Store → Option Store
write_descriptors m gpa [] s = some s
write_descriptors m gpa (entry ∷ entries) s = do
  s' ← write_at m s gpa (to_le 8 entry)
  write_descriptors m (gpa + 8) entries s'

unfoldable pub setup_gdt : GuestMem → Store → Option Store
setup_gdt m s = write_descriptors m gdt_addr gdt s
