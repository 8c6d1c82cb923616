-- ===== src/Vmm/Serial/Tests.antt =====
-- The serial port at work: a line printed, a key typed, a probe of the interrupt enables.
use Prim.Native.String.{String}
use Prim.Native.Char.{code}
use clone.Prelude.{
  ℕ, Bool, true, false, Option, map, ◌==◌, if◌then◌else◌, arith, ap, ◌≡◌, refl, List, [], ◌∷◌, ◌++◌,
  ◌&&◌, ◌||◌, some, none,
}
use clone.Vmm.Serial.{
  new, bit, write, read, write_data, write_ier, write_fcr, write_lcr, enqueue_input,
  interrupt_pending, has_pending_input,
}
use clone.Vmm.Json.{Literal, number, boolean, numbers, SerdeJson, IsLawful, ReadsBack, field}
use clone.Vmm.Serial.Snapshot.{
  snapshot_fields, snapshot_state, restore_state, HasBytes, AreBytes, get_u8, get_bool, get_bytes,
  bytes_of, restore-snapshot,
}
use clone.Vmm.Serial.Bytes.{GiveBytes, run-HasBytes}
use clone.Vmm.Serial.Registers.{Access, reads, writes, enqueues, run, interrupt_pending-run}
use clone.Vmm.Serial.Streams.{sent, sent_by, taken_by, typed, sent-run, taken-run}

abbrev session : List Access
session =
    writes 1 0xFF
    ∷ writes 0 b'h'
    ∷ writes 0 b'i'
    ∷ writes 0 b'\n'
    ∷ enqueues b'a'
    ∷ enqueues b'b'
    ∷ reads 0
    ∷ []

session_output : (run new session).stdout ≡ b'h' ∷ b'i' ∷ b'\n' ∷ []
unfolding run write read write_data write_ier write_lcr write_fcr enqueue_input
session_output = refl

-- Only four enables stick.
session_enables : (run new session).ier ≡ 15
unfolding run write read write_data write_ier write_lcr write_fcr enqueue_input
session_enables = refl

session_input : (run new session).input_buffer ≡ b'b' ∷ []
unfolding run write read write_data write_ier write_lcr write_fcr enqueue_input
session_input = refl

interrupt_pending-run_example :
    interrupt_pending (run new session)
    ≡ (bit 0 (run new session).ier && has_pending_input (run new session))
      || bit 1 (run new session).ier
interrupt_pending-run_example = interrupt_pending-run session

sent-run_example : sent (run new session) ≡ sent new ++ sent_by new session
sent-run_example = sent-run new session

taken-run_example : taken_by new session ++ (run new session).input_buffer ≡ b'a' ∷ b'b' ∷ []
unfolding typed
taken-run_example = taken-run new session

-- JSON values without text, null and nesting, a printer of them, and a reader of the one text that
-- is printed for the session's port.
data Value : Type 0 where
  literal : Literal → Value
  object : List (String × Literal) → Value

abbrev codes : String → List ℕ
codes String.[] = []
codes (String.◌∷◌ c s) = code c ∷ codes s

abbrev print_literal : Literal → List ℕ
print_literal (number n) = n ∷ []
print_literal (boolean true) = b't' ∷ []
print_literal (boolean false) = b'f' ∷ []
print_literal (numbers ns) = b'[' ∷ ns ++ b']' ∷ []

abbrev print_fields : List (String × Literal) → List ℕ
print_fields [] = b'}' ∷ []
print_fields ((key, l) ∷ fields) = codes key ++ b':' ∷ print_literal l ++ b',' ∷ print_fields fields

abbrev print : Value → List ℕ
print (literal l) = print_literal l
print (object fields) = b'{' ∷ print_fields fields

abbrev same_text : List ℕ → List ℕ → Bool
same_text [] [] = true
same_text (a ∷ s) (b ∷ t) = (a == b) && same_text s t
same_text s t = false

abbrev known : Value
known = object (snapshot_fields (run new session))

abbrev found : Option Literal → Option Value
found none = none
found (some l) = some (literal l)

abbrev get_literal : Value → String → Option Value
get_literal (literal l) key = none
get_literal (object fields) key = found (field key fields)

abbrev literal_u64 : Value → Option ℕ
literal_u64 (literal (number n)) = some n
literal_u64 v = none

abbrev literal_bool : Value → Option Bool
literal_bool (literal (boolean b)) = some b
literal_bool v = none

abbrev literal_array : Value → Option (List Value)
literal_array (literal (numbers ns)) = some (map (λ n. literal (number n)) ns)
literal_array v = none

abbrev toy : SerdeJson
toy = record {
  Value = Value;
  value = literal;
  json = object;
  to_string = print;
  from_slice = λ text. if same_text text (print known) then some known else none;
  get = get_literal;
  as_u64 = literal_u64;
  as_bool = literal_bool;
  as_array = literal_array;
}

toy-IsLawful : IsLawful toy
toy-IsLawful = record {
  get_field = λ fields key l e. ap found e;
  number_as_u64 = λ n h. refl;
  flag_as_bool = λ b. refl;
  numbers_as_array = λ ns. refl;
}

session-ReadsBack : ReadsBack toy (snapshot_fields (run new session))
unfolding run write read write_data write_ier write_lcr write_fcr enqueue_input
session-ReadsBack = record { text_present = λ e. cc; text_read = refl }

new-HasBytes : HasBytes new
unfolding AreBytes
new-HasBytes = record {
  thr_byte = omega arith;
  ier_byte = omega arith;
  iir_byte = omega arith;
  lcr_byte = omega arith;
  mcr_byte = omega arith;
  lsr_byte = omega arith;
  msr_byte = omega arith;
  scr_byte = omega arith;
  low_byte = omega arith;
  high_byte = omega arith;
  input_bytes = tt;
}

session-GiveBytes : GiveBytes session
unfolding GiveBytes
session-GiveBytes = ground arith

session-HasBytes : HasBytes (run new session)
session-HasBytes = run-HasBytes new session new-HasBytes session-GiveBytes

restore-snapshot_example :
    restore_state toy new (snapshot_state toy (run new session)) ≡ record (run new session) {
      output_buffer = [];
      console_fd = none;
      stdout = [];
      console_out = [];
    }
restore-snapshot_example =
    restore-snapshot (run new session) new toy-IsLawful session-ReadsBack session-HasBytes

-- A key that is missing reads as 0, and a number that is no byte loses its high bits.
other_object :
    (get_u8 toy (object (("ier", number 261) ∷ [])) "ier" ≡ 5)
    × (get_u8 toy (object (("ier", number 261) ∷ [])) "iir" ≡ 0)
    × (get_bool toy (object (("dlab", number 1) ∷ [])) "dlab" ≡ false)
    × (get_bytes toy (object (("input_buffer", numbers (300 ∷ [])) ∷ [])) "input_buffer" ≡ 44 ∷ [])
unfolding get_u8 get_bool get_bytes bytes_of field
other_object = (refl, refl, refl, refl)
