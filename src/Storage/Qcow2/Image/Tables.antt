-- ===== src/Storage/Qcow2/Image/Tables.antt =====
-- About storage/qcow2.rs: Qcow2File.
-- Tables of big-endian numbers in a file: what a write leaves, and what is then read.
use clone.Prelude.{
  ℕ, zero, suc, ap, ap₂, ◌∙◌, ◌+◌, ◌*◌, ◌^◌, ◌≤◌, ◌<◌, ◌≡◌, refl, sym, ◌⊎◌, inl, List, [], ◌∷◌,
  some, ◌++◌, arith, length, get_or, to_be, from_be, length-to_be, from_be-to_be,
}
use clone.Memory.Store.{Store, load, store, store_outside, load-store_self}
use clone.Storage.File.{DiskFile, cut, write_all, set_len}
use clone.Storage.Qcow2.Image.{table_at, read_table, write_table}

-- Stretches of two stores that agree read the same.
pub load_shift :
    (s t : Store) (i j n : ℕ) → ((k : ℕ) → k < n → s (i + k) ≡ t (j + k)) → load s i n ≡ load t j n
load_shift s t i j zero h = refl
load_shift s t i j (suc n) h =
    let e : (k : ℕ) → suc k < suc n → s (i + 1 + k) ≡ t (j + 1 + k) =
      λ k l. ap s (omega arith) ∙ h (suc k) l ∙ ap t (omega arith) in
    ap₂ ◌∷◌ (ap s (omega arith) ∙ h 0 (omega arith) ∙ ap t (omega arith))
      (load_shift s t (i + 1) (j + 1) n λ k l. e k (omega arith))

pub load_ext :
    (s t : Store) (i n : ℕ) → ((k : ℕ) → k < n → s (i + k) ≡ t (i + k)) → load s i n ≡ load t i n
load_ext s t i n h = load_shift s t i i n h

pub load-append : (s : Store) (i m n : ℕ) → load s i (m + n) ≡ load s i m ++ load s (i + m) n
load-append s i zero n = ap₂ (load s) (omega arith) (omega arith)
load-append s i (suc m) n =
    let e : suc m + n ≡ suc (m + n) = omega arith in
    ap (load s i) e
    ∙ ap (◌∷◌ (s i))
        (load-append s (i + 1) m n ∙ ap (λ o. load s (i + 1) m ++ load s o n) (omega arith))

-- The number at an offset of a file.
unfoldable pub number_at : DiskFile → ℕ → ℕ
number_at f offset = from_be (load f.content offset 8)

pub number_at_ext :
    (f g : DiskFile) (offset : ℕ)
    → ((k : ℕ) → k < 8 → f.content (offset + k) ≡ g.content (offset + k))
    → number_at f offset ≡ number_at g offset
unfolding number_at
number_at_ext f g offset h = ap from_be (load_ext f.content g.content offset 8 h)

-- A write keeps the bytes of the file beside it.
pub write_all_outside :
    (f : DiskFile) (offset : ℕ) (bytes : List ℕ) (x : ℕ)
    → x < f.len
    → (x < offset) ⊎ (offset + length bytes ≤ x)
    → (write_all f offset bytes).content x ≡ f.content x
unfolding write_all
write_all_outside f offset bytes x inside beside =
    store_outside (cut f) offset bytes x beside ∙ ground arith

pub len-write_all :
    (f : DiskFile) (offset : ℕ) (bytes : List ℕ)
    → offset + length bytes ≤ f.len
    → (write_all f offset bytes).len ≡ f.len
unfolding write_all
len-write_all f offset bytes h = ground arith

pub set_len_inside : (f : DiskFile) (n x : ℕ) → x < f.len → (set_len f n).content x ≡ f.content x
unfolding set_len
set_len_inside f n x h = ground arith

pub len-write_table :
    (f : DiskFile) (offset : ℕ) (entries : List ℕ)
    → offset + length entries * 8 ≤ f.len
    → (write_table f offset entries).len ≡ f.len
unfolding write_table
len-write_table f offset [] h = refl
len-write_table f offset (val ∷ entries) h =
    let e = len-write_all f offset (to_be 8 val) (rw (length-to_be 8 val) (omega arith)) in
    len-write_table (write_all f offset (to_be 8 val)) (offset + 8) entries (rw e (omega arith)) ∙ e

pub write_table_outside :
    (f : DiskFile) (offset : ℕ) (entries : List ℕ) (x : ℕ)
    → x < f.len
    → offset + length entries * 8 ≤ f.len
    → (x < offset) ⊎ (offset + length entries * 8 ≤ x)
    → (write_table f offset entries).content x ≡ f.content x
unfolding write_table
write_table_outside f offset [] x inside room beside = refl
write_table_outside f offset (val ∷ entries) x inside room beside =
    let e = len-write_all f offset (to_be 8 val) (rw (length-to_be 8 val) (omega arith)) in
    write_table_outside (write_all f offset (to_be 8 val)) (offset + 8) entries x (rw e inside)
      (rw e (omega arith)) (omega arith)
    ∙ write_all_outside f offset (to_be 8 val) x inside (rw (length-to_be 8 val) (omega arith))

pub number_at-write_all :
    (f : DiskFile) (offset val : ℕ)
    → val < 2 ^ 64
    → number_at (write_all f offset (to_be 8 val)) offset ≡ val
unfolding number_at write_all
number_at-write_all f offset val h =
    ap (λ n. from_be (load (store (cut f) offset (to_be 8 val)) offset n))
      (sym (length-to_be 8 val))
    ∙ ap from_be (load-store_self (cut f) offset (to_be 8 val))
    ∙ from_be-to_be 8 val (omega arith)

-- Every number of a table that is written stands at its place.
abbrev pub All64 : List ℕ → Type 0
All64 [] = Unit {0}
All64 (val ∷ entries) = (val < 2 ^ 64) × All64 entries

pub number_at-write_table :
    (f : DiskFile) (offset : ℕ) (entries : List ℕ) (j : ℕ)
    → offset + length entries * 8 ≤ f.len
    → All64 entries
    → j < length entries
    → number_at (write_table f offset entries) (offset + j * 8) ≡ get_or entries j 0
unfolding write_table
number_at-write_table f offset [] j room fits h = absurd (omega arith)
number_at-write_table f offset (val ∷ entries) zero room fits h =
    let g = write_all f offset (to_be 8 val) in
    let e = len-write_all f offset (to_be 8 val) (rw (length-to_be 8 val) (omega arith)) in
    number_at_ext (write_table g (offset + 8) entries) g (offset + 0 * 8) (λ k l.
      write_table_outside g (offset + 8) entries (offset + 0 * 8 + k) (rw e (omega arith))
        (rw e (omega arith)) (inl (omega arith)))
    ∙ ap (number_at g) (omega arith)
    ∙ number_at-write_all f offset val fits.0
number_at-write_table f offset (val ∷ entries) (suc j) room fits h =
    let g = write_all f offset (to_be 8 val) in
    let e = len-write_all f offset (to_be 8 val) (rw (length-to_be 8 val) (omega arith)) in
    ap (number_at (write_table g (offset + 8) entries)) (omega arith)
    ∙ number_at-write_table g (offset + 8) entries j (rw e (omega arith)) fits.1 (omega arith)

pub length-table_at : (s : Store) (offset n : ℕ) → length (table_at s offset n) ≡ n
length-table_at s offset zero = refl
length-table_at s offset (suc n) = ap suc (length-table_at s (offset + 8) n)

pub get_or-table_at :
    (f : DiskFile) (offset n j : ℕ)
    → j < n
    → get_or (table_at f.content offset n) j 0 ≡ number_at f (offset + j * 8)
unfolding number_at
get_or-table_at f offset zero j h = absurd (omega arith)
get_or-table_at f offset (suc n) zero h = ap (λ o. from_be (load f.content o 8)) (omega arith)
get_or-table_at f offset (suc n) (suc j) h =
    get_or-table_at f (offset + 8) n j (omega arith)
    ∙ ap (λ o. from_be (load f.content o 8)) (omega arith)

pub All64-of_each :
    (entries : List ℕ)
    → ((j : ℕ) → j < length entries → get_or entries j 0 < 2 ^ 64)
    → All64 entries
All64-of_each [] h = tt
All64-of_each (val ∷ entries) h =
    (h 0 (omega arith), All64-of_each entries λ j l. h (suc j) (omega arith))

pub each_of_All64 :
    (entries : List ℕ) (j : ℕ) → All64 entries → j < length entries → get_or entries j 0 < 2 ^ 64
each_of_All64 [] j fits h = absurd (omega arith)
each_of_All64 (val ∷ entries) zero fits h = fits.0
each_of_All64 (val ∷ entries) (suc j) fits h = each_of_All64 entries j fits.1 (omega arith)

pub read_table_inside :
    (f : DiskFile) (offset n : ℕ)
    → offset + n * 8 ≤ f.len
    → read_table f offset n ≡ some (table_at f.content offset n)
unfolding read_table
read_table_inside f offset zero h = refl
read_table_inside f offset (suc n) h = ground (arith, h)
