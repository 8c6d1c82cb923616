-- ===== src/Prelude/Bytes.antt =====
-- Rust's to_le_bytes, to_be_bytes, from_le_bytes and from_be_bytes, for any number of bytes.
use mathlib.Core.List.{reverse, reverse-reverse, reverse-cons}
use Prim.Native.Nat.{ℕ, zero, suc, ◌+◌, ◌*◌, ◌/◌, ◌%◌}
use mathlib.Core.Path.{◌≡◌, refl, ap, ◌∙◌}
use mathlib.Core.List.{List, [], ◌∷◌}
use native.Mathlib.Omega.{arith}
use clone.Prelude.Lists.{length, length-append}

-- The low `n` bytes of `x`, the lowest first.
abbrev pub to_le : ℕ → ℕ → List ℕ
to_le zero x = []
to_le (suc n) x = x % 256 ∷ to_le n (x / 256)

abbrev pub from_le : List ℕ → ℕ
from_le [] = 0
from_le (b ∷ bs) = b + 256 * from_le bs

abbrev pub to_be : ℕ → ℕ → List ℕ
to_be n x = reverse (to_le n x)

abbrev pub from_be : List ℕ → ℕ
from_be bs = from_le (reverse bs)

pub length-to_le : (n x : ℕ) → length (to_le n x) ≡ n
length-to_le zero x = refl
length-to_le (suc n) x = ap suc (length-to_le n (x / 256))

pub length-reverse {ℓ} : {A : Type ℓ} (xs : List A) → length (reverse xs) ≡ length xs
length-reverse [] = refl
length-reverse (x ∷ xs) =
    omega
      (arith, ap length (reverse-cons x xs), length-append (reverse xs) (x ∷ []), length-reverse xs)

pub length-to_be : (n x : ℕ) → length (to_be n x) ≡ n
length-to_be n x = length-reverse (to_le n x) ∙ length-to_le n x

-- How `n` bytes hold a number: the number is below 256 ^ n.
abbrev pub Fits : ℕ → ℕ → Type 0
Fits zero x = x ≡ 0
Fits (suc n) x = Fits n (x / 256)

pub from_le-to_le : (n x : ℕ) → Fits n x → from_le (to_le n x) ≡ x
from_le-to_le zero x h = omega arith
from_le-to_le (suc n) x h = omega (arith, from_le-to_le n (x / 256) h)

pub from_be-to_be : (n x : ℕ) → Fits n x → from_be (to_be n x) ≡ x
from_be-to_be n x h = rw (reverse-reverse (to_le n x)) (from_le-to_le n x h)
