-- ===== src/Memory/Paging/Identity.antt =====
-- The processor's walk through the tables of setup_page_tables maps every address to itself.
use clone.Prelude.{
  ℕ, zero, suc, ◌∙◌, ◌+◌, ◌*◌, ◌/◌, ◌%◌, ◌^◌, ◌≤◌, ◌<◌, ◌≡◌, refl, ◌⊎◌, inl, inr, Option, none,
  some, arith, ◌==◌, ◌&&◌, if◌then◌else◌, to_le, from_le, length-to_le,
}
use clone.Memory.Store.{Store, load, store, from_le-load-store, from_le-load-store_disjoint}
use clone.Memory.Guest.{GuestMem, gpa_to_offset, write_at}
use clone.Memory.Paging.{
  pml4_addr, pdpt_addr, pd_addr, num_gb, pd_entry, fill_pd, map_gbs, setup_page_tables,
}

-- The tables of 64 gigabytes lie in memory, below the hole if there is one.
pub record HasRoom (m : GuestMem) : Type 0 where
  pub below : (m.hole_start ≡ 0) ⊎ (0x50000 ≤ m.hole_start)
  pub inside : 0x50000 ≤ m.size
  pub small : m.size < 2 ^ 63

-- The 64-bit entry at an address.
unfoldable pub entry : Store → ℕ → ℕ
entry s a = from_le (load s a 8)

-- The table that an entry points to.
abbrev pub table : ℕ → ℕ
table e = e % 2 ^ 52 / 2 ^ 12 * 2 ^ 12

-- What an x86-64 processor makes of a virtual address with these tables, at a width of 52 bits for
-- physical addresses. Each level must be present
-- (bit 0) and writable (bit 1). Bit 7 is reserved in the top table, and in a directory pointer makes
-- a page of 1 gigabyte, which is left out: with either there is no translation here. The page
-- directory must have it, for a page of 2 megabytes, with bits 13 to 20 clear, which are reserved
-- there. Bits 52 to 63 must be clear: they would be reserved, a key, or no execution.
unfoldable pub translate : Store → ℕ → Option ℕ
translate s va =
    let e4 = entry s (pml4_addr + va / 2 ^ 39 % 512 * 8) in
    let e3 = entry s (table e4 + va / 2 ^ 30 % 512 * 8) in
    let e2 = entry s (table e3 + va / 2 ^ 21 % 512 * 8) in
    if e4 % 4 == 3 && e4 / 2 ^ 7 % 2 == 0 && e4 / 2 ^ 52 == 0
    then if e3 % 4 == 3 && e3 / 2 ^ 7 % 2 == 0 && e3 / 2 ^ 52 == 0
      then if e2 % 4 == 3 && e2 / 2 ^ 7 % 2 == 1 && e2 / 2 ^ 13 % 2 ^ 8 == 0 && e2 / 2 ^ 52 == 0
        then some (e2 % 2 ^ 52 / 2 ^ 21 * 2 ^ 21 + va % 2 ^ 21)
        else none
      else none
    else none

apart : (i k : ℕ) → i ≤ k → (i < k) ⊎ (i ≡ k)
apart i k h = omega arith

entry_self : (s : Store) (a e : ℕ) → e < 2 ^ 64 → entry (store s a (to_le 8 e)) a ≡ e
unfolding entry
entry_self s a e h = from_le-load-store s a 8 e (omega arith)

entry_other :
    (s : Store) (a e b : ℕ)
    → (b + 8 ≤ a) ⊎ (a + 8 ≤ b)
    → entry (store s a (to_le 8 e)) b ≡ entry s b
unfolding entry
entry_other s a e b h = from_le-load-store_disjoint s a 8 e b 8 h

-- In that room an entry is written at its own address.
write_at-low :
    {m : GuestMem} (s : Store) (a e : ℕ)
    → HasRoom m
    → a + 8 ≤ 0x50000
    → write_at m s a (to_le 8 e) ≡ some (store s a (to_le 8 e))
unfolding write_at gpa_to_offset
write_at-low s a e v h = rw (length-to_le 8 e) (ground arith)

-- What the loops leave.
unfoldable filled : ℕ → ℕ → Store → Store
filled gb zero s = s
filled gb (suc i) s = store (filled gb i s) (pd_addr gb + i * 8) (to_le 8 (pd_entry gb i))

unfoldable mapped : ℕ → Store → Store
mapped zero s = s
mapped (suc gb) s =
    filled gb 512 (store (mapped gb s) (pdpt_addr + gb * 8) (to_le 8 (pd_addr gb + 0x3)))

fill_pd-filled :
    {m : GuestMem} (gb n : ℕ) (s : Store)
    → HasRoom m
    → gb < 64
    → n ≤ 512
    → fill_pd m gb n s ≡ some (filled gb n s)
unfolding fill_pd filled
fill_pd-filled gb zero s v hg hn = refl
fill_pd-filled gb (suc i) s v hg hn =
    rw (fill_pd-filled gb i s v hg (omega arith))
      (write_at-low (filled gb i s) (pd_addr gb + i * 8) (pd_entry gb i) v (omega arith))

filled_other :
    (gb n : ℕ) (s : Store) (a : ℕ)
    → (a + 8 ≤ pd_addr gb) ⊎ (pd_addr gb + n * 8 ≤ a)
    → entry (filled gb n s) a ≡ entry s a
unfolding filled
filled_other gb zero s a h = refl
filled_other gb (suc i) s a h =
    entry_other (filled gb i s) (pd_addr gb + i * 8) (pd_entry gb i) a (omega arith)
    ∙ filled_other gb i s a (omega arith)

filled_at :
    (gb n : ℕ) (s : Store) (i : ℕ)
    → gb < 64
    → n ≤ 512
    → i < n
    → entry (filled gb n s) (pd_addr gb + i * 8) ≡ pd_entry gb i
unfolding filled
filled_at gb zero s i hg hn hi = absurd (omega arith)
filled_at gb (suc k) s i hg hn hi = elim (apart i k (omega arith)) [
  | inl below ↦
      entry_other (filled gb k s) (pd_addr gb + k * 8) (pd_entry gb k) (pd_addr gb + i * 8)
        (inl (omega arith))
      ∙ filled_at gb k s i hg (omega arith) below
  | inr same ↦
      rw same (entry_self (filled gb k s) (pd_addr gb + k * 8) (pd_entry gb k) (omega arith))
]

map_gbs-mapped :
    {m : GuestMem} (n : ℕ) (s : Store) → HasRoom m → n ≤ 64 → map_gbs m n s ≡ some (mapped n s)
unfolding map_gbs mapped
map_gbs-mapped zero s v hn = refl
map_gbs-mapped (suc gb) s v hn =
    rw
      (
        map_gbs-mapped gb s v (omega arith),
        write_at-low (mapped gb s) (pdpt_addr + gb * 8) (pd_addr gb + 0x3) v (omega arith),
      )
      (fill_pd-filled gb 512 (store (mapped gb s) (pdpt_addr + gb * 8) (to_le 8 (pd_addr gb + 0x3)))
        v (omega arith) (omega arith))

-- The loop over the gigabytes leaves alone what lies before the directory pointers.
mapped_other :
    (n : ℕ) (s : Store) (a : ℕ) → n ≤ 64 → a + 8 ≤ pdpt_addr → entry (mapped n s) a ≡ entry s a
unfolding mapped
mapped_other zero s a hn ha = refl
mapped_other (suc gb) s a hn ha =
    filled_other gb 512 _ a (inl (omega arith))
    ∙ entry_other (mapped gb s) (pdpt_addr + gb * 8) (pd_addr gb + 0x3) a (inl (omega arith))
    ∙ mapped_other gb s a (omega arith) ha

mapped_pdpt :
    (n : ℕ) (s : Store) (gb : ℕ)
    → n ≤ 64
    → gb < n
    → entry (mapped n s) (pdpt_addr + gb * 8) ≡ pd_addr gb + 0x3
unfolding mapped
mapped_pdpt zero s gb hn hg = absurd (omega arith)
mapped_pdpt (suc k) s gb hn hg =
    filled_other k 512 _ (pdpt_addr + gb * 8) (inl (omega arith))
    ∙ elim (apart gb k (omega arith)) [
      | inl below ↦
          entry_other (mapped k s) (pdpt_addr + k * 8) (pd_addr k + 0x3) (pdpt_addr + gb * 8)
            (inl (omega arith))
          ∙ mapped_pdpt k s gb (omega arith) below
      | inr same ↦
          rw same (entry_self (mapped k s) (pdpt_addr + k * 8) (pd_addr k + 0x3) (omega arith))
    ]

mapped_pd :
    (n : ℕ) (s : Store) (gb i : ℕ)
    → n ≤ 64
    → gb < n
    → i < 512
    → entry (mapped n s) (pd_addr gb + i * 8) ≡ pd_entry gb i
unfolding mapped
mapped_pd zero s gb i hn hg hi = absurd (omega arith)
mapped_pd (suc k) s gb i hn hg hi = elim (apart gb k (omega arith)) [
  | inl below ↦
      filled_other k 512 _ (pd_addr gb + i * 8) (inl (omega arith))
      ∙ entry_other (mapped k s) (pdpt_addr + k * 8) (pd_addr k + 0x3) (pd_addr gb + i * 8)
          (inr (omega arith))
      ∙ mapped_pd k s gb i (omega arith) below hi
  | inr same ↦ rw same (filled_at k 512 _ i (omega arith) (omega arith) hi)
]

-- Three entries that agree take an address to itself.
translate-id :
    (s : Store) (va : ℕ)
    → va < 2 ^ 36
    → entry s pml4_addr ≡ pdpt_addr + 0x3
    → entry s (pdpt_addr + va / 2 ^ 30 * 8) ≡ pd_addr (va / 2 ^ 30) + 0x3
    → entry s (pd_addr (va / 2 ^ 30) + va / 2 ^ 21 % 512 * 8)
      ≡ pd_entry (va / 2 ^ 30) (va / 2 ^ 21 % 512)
    → translate s va ≡ some va
unfolding translate
translate-id s va h e4 e3 e2 =
    let a4 : pml4_addr + va / 2 ^ 39 % 512 * 8 ≡ pml4_addr = omega arith in
    let a3 : table (pdpt_addr + 0x3) + va / 2 ^ 30 % 512 * 8 ≡ pdpt_addr + va / 2 ^ 30 * 8 =
      omega arith in
    let a2 : table (pd_addr (va / 2 ^ 30) + 0x3) + va / 2 ^ 21 % 512 * 8
        ≡ pd_addr (va / 2 ^ 30) + va / 2 ^ 21 % 512 * 8 =
      omega arith in
    rw (a4, e4, a3, e3, a2, e2) (ground arith)

-- If the first 0x50000 bytes lie in memory, below any hole, and the memory has at most 2 ^ 36
-- bytes, setup_page_tables succeeds, and in what it leaves an x86-64 processor's walk from the top
-- table takes every address below the memory's size to itself: each level is present and writable,
-- the two upper levels name tables and no page, the page directory has a page of 2 megabytes, and
-- no bit that is reserved with physical addresses of 52 bits is set.
pub identity_mapped :
    {m : GuestMem} (s : Store) (mem_size va : ℕ)
    → HasRoom m
    → mem_size ≤ 2 ^ 36
    → va < mem_size
    → (t : Store) × (setup_page_tables m s mem_size ≡ some t) × (translate t va ≡ some va)
unfolding setup_page_tables
identity_mapped {m} s mem_size va v hs hv =
    let s' = store s pml4_addr (to_le 8 (pdpt_addr + 0x3)) in
    let n = num_gb mem_size in
    (
      mapped n s',
      rw (write_at-low s pml4_addr (pdpt_addr + 0x3) v (omega arith))
          (map_gbs-mapped n s' v (omega arith)),
      translate-id (mapped n s') va (omega arith)
          (mapped_other n s' pml4_addr (omega arith) (omega arith)
            ∙ entry_self s pml4_addr (pdpt_addr + 0x3) (omega arith))
          (mapped_pdpt n s' (va / 2 ^ 30) (omega arith) (omega arith))
          (mapped_pd n s' (va / 2 ^ 30) (va / 2 ^ 21 % 512) (omega arith) (omega arith)
            (omega arith)),
    )
