-- ===== src/Vmm/Json.antt =====
-- What vmm/serial.rs uses of the serde_json crate: the `json!` macro on an object of numbers, a flag
-- and a list of numbers, `to_string`, `from_slice`, and the accessors of a Value. The crate is not
-- in the repository: it is a record of operations, and its documented behaviour a record of laws.
use text.Mathlib.Text.{◌==◌ as str_eq}
use clone.Prelude.{
  ℕ, ◌<◌, ◌^◌, ◌≡◌, ◌≢◌, Bool, List, [], ◌∷◌, Option, none, some, map, if◌then◌else◌,
}
use Prim.Native.String.{String}

-- A value in the source of a `json!` object.
pub data Literal : Type 0 where
  number : ℕ → Literal
  boolean : Bool → Literal
  numbers : List ℕ → Literal

pub record SerdeJson : Type 1 where
  pub Value : Type 0
  pub value : Literal → Value
  pub json : List (String × Literal) → Value
  pub to_string : Value → List ℕ
  pub from_slice : List ℕ → Option Value
  pub get : Value → String → Option Value
  pub as_u64 : Value → Option ℕ
  pub as_bool : Value → Option Bool
  pub as_array : Value → Option (List Value)

abbrev or_else : Option Literal → Option Literal → Option Literal
or_else none o = o
or_else (some l) o = some l

-- The last of the fields with a key.
unfoldable pub field : String → List (String × Literal) → Option Literal
field key [] = none
field key ((k, l) ∷ fields) = or_else (field key fields) (if str_eq k key then some l else none)

-- A field of an object is found by its key, and a value of a kind is read back as that kind.
pub record IsLawful (serde : SerdeJson) : Type 0 where
  pub get_field :
      (fields : List (String × Literal)) (key : String) (l : Literal)
      → field key fields ≡ some l
      → serde.get (serde.json fields) key ≡ some (serde.value l)
  pub number_as_u64 : (n : ℕ) → n < 2 ^ 64 → serde.as_u64 (serde.value (number n)) ≡ some n
  pub flag_as_bool : (b : Bool) → serde.as_bool (serde.value (boolean b)) ≡ some b
  pub numbers_as_array :
      (ns : List ℕ)
      → serde.as_array (serde.value (numbers ns)) ≡ some (map (λ n. serde.value (number n)) ns)

-- The text of an object is not empty, and is read as the object.
pub record ReadsBack (serde : SerdeJson) (fields : List (String × Literal)) : Type 0 where
  pub text_present : serde.to_string (serde.json fields) ≢ []
  pub text_read : serde.from_slice (serde.to_string (serde.json fields)) ≡ some (serde.json fields)
