-- ===== src/Vmm/Serial/Snapshot.antt =====
-- About vmm/serial.rs: snapshot_state and restore_state. The keys are the source's; `data` is the
-- key of `thr`.
use Prim.Native.String.{String}
use clone.Prelude.{
  ℕ, ◌%◌, ◌^◌, ◌<◌, ◌≡◌, refl, ◌∙◌, Bool, false, List, [], ◌∷◌, Option, none, some, ◌>>=◌, map,
  arith, ◌≢◌,
}
use clone.Vmm.Json.{Literal, number, boolean, numbers, SerdeJson, IsLawful, ReadsBack, field}
use clone.Vmm.Serial.{Serial}

-- The object of the `json!` call.
abbrev pub snapshot_fields : Serial → List (String × Literal)
snapshot_fields s =
    ("data", number s.thr)
    ∷ ("ier", number s.ier)
    ∷ ("iir", number s.iir)
    ∷ ("lcr", number s.lcr)
    ∷ ("mcr", number s.mcr)
    ∷ ("lsr", number s.lsr)
    ∷ ("msr", number s.msr)
    ∷ ("scr", number s.scr)
    ∷ ("dlab", boolean s.dlab)
    ∷ ("divisor_low", number s.divisor_low)
    ∷ ("divisor_high", number s.divisor_high)
    ∷ ("input_buffer", numbers s.input_buffer)
    ∷ []

abbrev pub unwrap_or {ℓ} : {A : Type ℓ} → A → Option A → A
unwrap_or default none = default
unwrap_or default (some a) = a

module _ (serde : SerdeJson) where
  unfoldable pub snapshot_state : Serial → List ℕ
  snapshot_state s = serde.to_string (serde.json (snapshot_fields s))

  -- The closure `get`: 0 for a key that is missing or no u64, and then `as u8`.
  unfoldable pub get_u8 : serde.Value → String → ℕ
  get_u8 state key = unwrap_or 0 (serde.get state key >>= serde.as_u64) % 2 ^ 8

  unfoldable pub get_bool : serde.Value → String → Bool
  get_bool state key = unwrap_or false (serde.get state key >>= serde.as_bool)

  -- The elements that are no u64 are left out.
  unfoldable pub bytes_of : List serde.Value → List ℕ
  bytes_of [] = []
  bytes_of (v ∷ vs) = elim (serde.as_u64 v) [
    | none ↦ bytes_of vs
    | some u ↦ u % 2 ^ 8 ∷ bytes_of vs
  ]

  unfoldable pub get_bytes : serde.Value → String → List ℕ
  get_bytes state key =
      unwrap_or [] (serde.get state key >>= serde.as_array >>= λ a. some (bytes_of a))

  unfoldable pub assign_state : Serial → serde.Value → Serial
  assign_state s state = record s {
    thr = get_u8 state "data";
    ier = get_u8 state "ier";
    iir = get_u8 state "iir";
    lcr = get_u8 state "lcr";
    mcr = get_u8 state "mcr";
    lsr = get_u8 state "lsr";
    msr = get_u8 state "msr";
    scr = get_u8 state "scr";
    dlab = get_bool state "dlab";
    divisor_low = get_u8 state "divisor_low";
    divisor_high = get_u8 state "divisor_high";
    input_buffer = get_bytes state "input_buffer";
    output_buffer = [];
  }

  -- Nothing happens on data that is empty or no JSON.
  unfoldable pub restore_state : Serial → List ℕ → Serial
  restore_state s [] = s
  restore_state s (b ∷ data_rest) = elim (serde.from_slice (b ∷ data_rest)) [
    | none ↦ s
    | some state ↦ assign_state s state
  ]

-- The list's elements are bytes.
unfoldable pub AreBytes : List ℕ → Type 0
AreBytes [] = Unit {0}
AreBytes (b ∷ bs) = (b < 2 ^ 8) × AreBytes bs

-- The fields of the type u8, and the input, are bytes.
pub record HasBytes (s : Serial) : Type 0 where
  pub thr_byte : s.thr < 2 ^ 8
  pub ier_byte : s.ier < 2 ^ 8
  pub iir_byte : s.iir < 2 ^ 8
  pub lcr_byte : s.lcr < 2 ^ 8
  pub mcr_byte : s.mcr < 2 ^ 8
  pub lsr_byte : s.lsr < 2 ^ 8
  pub msr_byte : s.msr < 2 ^ 8
  pub scr_byte : s.scr < 2 ^ 8
  pub low_byte : s.divisor_low < 2 ^ 8
  pub high_byte : s.divisor_high < 2 ^ 8
  pub input_bytes : AreBytes s.input_buffer

module _ {serde : SerdeJson} (laws : IsLawful serde) (fields : List (String × Literal)) where
  get_u8-number :
      (key : String) (n : ℕ)
      → field key fields ≡ some (number n)
      → n < 2 ^ 8
      → get_u8 serde (serde.json fields) key ≡ n
  unfolding get_u8
  get_u8-number key n e h =
      rw (laws.get_field fields key (number n) e, laws.number_as_u64 n (omega arith)) (omega arith)

  get_bool-boolean :
      (key : String) (b : Bool)
      → field key fields ≡ some (boolean b)
      → get_bool serde (serde.json fields) key ≡ b
  unfolding get_bool
  get_bool-boolean key b e = rw (laws.get_field fields key (boolean b) e, laws.flag_as_bool b) refl

  bytes_of-numbers :
      (ns : List ℕ) → AreBytes ns → bytes_of serde (map (λ n. serde.value (number n)) ns) ≡ ns
  unfolding bytes_of AreBytes
  bytes_of-numbers [] h = refl
  bytes_of-numbers (n ∷ ns) h =
      let small : n % 2 ^ 8 ≡ n = omega (arith, h.0) in
      rw (laws.number_as_u64 n (omega (arith, h.0)), bytes_of-numbers ns h.1, small) refl

  get_bytes-numbers :
      (key : String) (ns : List ℕ)
      → field key fields ≡ some (numbers ns)
      → AreBytes ns
      → get_bytes serde (serde.json fields) key ≡ ns
  unfolding get_bytes
  get_bytes-numbers key ns e h =
      rw (laws.get_field fields key (numbers ns) e, laws.numbers_as_array ns, bytes_of-numbers ns h)
        refl

restore_state-read :
    (serde : SerdeJson) (t : Serial) (bytes : List ℕ) (state : serde.Value)
    → bytes ≢ []
    → serde.from_slice bytes ≡ some state
    → restore_state serde t bytes ≡ assign_state serde t state
unfolding restore_state
restore_state-read serde t [] state ne e = absurd (ne refl)
restore_state-read serde t (b ∷ bs) state ne e = rw (restore_state, e) refl

assign_state-fields :
    {serde : SerdeJson} (s t : Serial)
    → IsLawful serde
    → HasBytes s
    → assign_state serde t (serde.json (snapshot_fields s)) ≡ record s {
      output_buffer = [];
      console_fd = t.console_fd;
      stdout = t.stdout;
      console_out = t.console_out;
    }
unfolding assign_state field
assign_state-fields {serde} s t laws v =
    let fields = snapshot_fields s in
    rw
      (
        get_u8-number laws fields "data" s.thr refl v.thr_byte,
        get_u8-number laws fields "ier" s.ier refl v.ier_byte,
        get_u8-number laws fields "iir" s.iir refl v.iir_byte,
        get_u8-number laws fields "lcr" s.lcr refl v.lcr_byte,
        get_u8-number laws fields "mcr" s.mcr refl v.mcr_byte,
        get_u8-number laws fields "lsr" s.lsr refl v.lsr_byte,
        get_u8-number laws fields "msr" s.msr refl v.msr_byte,
        get_u8-number laws fields "scr" s.scr refl v.scr_byte,
        get_bool-boolean laws fields "dlab" s.dlab refl,
        get_u8-number laws fields "divisor_low" s.divisor_low refl v.low_byte,
        get_u8-number laws fields "divisor_high" s.divisor_high refl v.high_byte,
        get_bytes-numbers laws fields "input_buffer" s.input_buffer refl v.input_bytes,
      )
      refl

-- If a JSON library finds the fields of an object by their keys and reads numbers, flags and lists
-- of numbers back, then for a port whose u8 fields and input are bytes, and whose snapshot it
-- prints as a text that is not empty and that it reads as the same object: the snapshot restored on
-- any port gives back the registers and the input; the output buffer is empty, and the console and
-- what was written out stay those of the port restored.
pub restore-snapshot :
    {serde : SerdeJson} (s t : Serial)
    → IsLawful serde
    → ReadsBack serde (snapshot_fields s)
    → HasBytes s
    → restore_state serde t (snapshot_state serde s) ≡ record s {
      output_buffer = [];
      console_fd = t.console_fd;
      stdout = t.stdout;
      console_out = t.console_out;
    }
unfolding snapshot_state
restore-snapshot {serde} s t laws back v =
    restore_state-read serde t (serde.to_string (serde.json (snapshot_fields s)))
      (serde.json (snapshot_fields s)) back.text_present back.text_read
    ∙ assign_state-fields s t laws v
