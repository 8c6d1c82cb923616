-- ===== src/Vmm/Serial.antt =====
-- vmm/serial.rs: the 16550A serial port COM1. What the port has written to the host's stdout, and to
-- the attached console, is part of the state: `stdout` and `console_out`, oldest byte first. Writes
-- to the host do not fail. The field that the code calls `data` is `thr` here. `Snapshot` has the
-- snapshots.
pub mod Registers
pub mod Streams
pub mod Snapshot
pub mod Bytes
mod Tests
use clone.Prelude.{
  ℕ, ◌+◌, ◌*◌, ◌/◌, ◌%◌, ◌^◌, Option, none, some, List, [], ◌∷◌, ◌++◌, Bool, true, false, not, leb,
  ◌==◌, ◌&&◌, ◌||◌, if◌then◌else◌, length,
}

pub record Serial : Type 0 where
  pub thr : ℕ
  pub ier : ℕ
  pub iir : ℕ
  pub lcr : ℕ
  pub mcr : ℕ
  pub lsr : ℕ
  pub msr : ℕ
  pub scr : ℕ
  pub input_buffer : List ℕ
  pub output_buffer : List ℕ
  pub dlab : Bool
  pub divisor_low : ℕ
  pub divisor_high : ℕ
  pub console_fd : Option ℕ
  pub stdout : List ℕ
  pub console_out : List ℕ

-- Bit `k` of a byte, the byte with it set, and with bit 0 cleared.
abbrev pub bit : ℕ → ℕ → Bool
bit k x = x / 2 ^ k % 2 == 1

abbrev pub set_bit : ℕ → ℕ → ℕ
set_bit k x = if bit k x then x else x + 2 ^ k

abbrev pub clear_bit_0 : ℕ → ℕ
clear_bit_0 x = x / 2 * 2

abbrev pub is_empty : List ℕ → Bool
is_empty [] = true
is_empty (b ∷ bs) = false

abbrev pub new : Serial
new = record {
  thr = 0;
  ier = 0;
  iir = 0xC1;
  lcr = 0;
  mcr = 0;
  lsr = 0x60;
  msr = 0;
  scr = 0;
  input_buffer = [];
  output_buffer = [];
  dlab = false;
  divisor_low = 0;
  divisor_high = 0;
  console_fd = none;
  stdout = [];
  console_out = [];
}

-- The interrupt that is pending, as the low bits of IIR: received data, then THR empty, then none.
abbrev pub pending_code : ℕ → Bool → ℕ
pending_code ier input_empty =
    if bit 0 ier && not input_empty then 4 else if bit 1 ier then 2 else 1

-- Bits 6 and 7, the FIFO bits, stay.
unfoldable pub update_iir : Serial → Serial
update_iir s = record s { iir = s.iir / 64 * 64 + pending_code s.ier (is_empty s.input_buffer) }

abbrev pub pop_front : List ℕ → ℕ × List ℕ
pop_front [] = (0, [])
pop_front (b ∷ bs) = (b, bs)

-- Port 0 with the divisor latch closed.
unfoldable pub read_data : Serial → ℕ × Serial
unfolding update_iir
read_data s =
    let (byte, rest) = pop_front s.input_buffer in
    let lsr = if is_empty rest then clear_bit_0 s.lsr else s.lsr in
    (byte, update_iir (record s { input_buffer = rest; lsr = lsr }))

-- Ports 5: bit 0 from the input buffer, bits 5 and 6 set.
abbrev pub line_status : Serial → ℕ
line_status s =
    set_bit 6 (set_bit 5 (if is_empty s.input_buffer then clear_bit_0 s.lsr else set_bit 0 s.lsr))

unfoldable pub read : Serial → ℕ → ℕ × Serial
unfolding read_data update_iir
read s port =
    if port == 0
    then (if s.dlab then (s.divisor_low, s) else read_data s)
    else if port == 1
    then (if s.dlab then s.divisor_high else s.ier, s)
    else if port == 2
    then (s.iir, if s.iir % 16 == 2 then update_iir s else s)
    else if port == 3
    then (s.lcr, s)
    else if port == 4
    then (s.mcr, s)
    else if port == 5
    then (line_status s, s)
    else if port == 6
    then (s.msr, s)
    else if port == 7
    then (s.scr, s)
    else (0, s)

abbrev pub tee : Option ℕ → List ℕ → List ℕ → List ℕ
tee none out bytes = out
tee (some fd) out bytes = out ++ bytes

-- The buffer goes to stdout, and to the console if one is attached.
unfoldable pub flush_to_host : Serial → Serial
flush_to_host s = record s {
  stdout = s.stdout ++ s.output_buffer;
  console_out = tee s.console_fd s.console_out s.output_buffer;
  output_buffer = [];
}

-- Port 0 with the divisor latch closed: flushed on a newline or a full buffer.
unfoldable pub write_data : Serial → ℕ → Serial
unfolding flush_to_host update_iir
write_data s value =
    let s' = record s { output_buffer = s.output_buffer ++ value ∷ [] } in
    update_iir
      (if value == b'\n' || leb 256 (length s'.output_buffer) then flush_to_host s' else s')

-- Port 1 with the latch closed: bits 4 to 7 are reserved and read as 0.
unfoldable pub write_ier : Serial → ℕ → Serial
unfolding update_iir
write_ier s value = update_iir (record s { ier = value % 16 })

-- Port 2, the FIFO control register.
unfoldable pub write_fcr : Serial → ℕ → Serial
write_fcr s value = record s { iir = if bit 0 value then s.iir % 64 + 0xC0 else s.iir % 64 }

unfoldable pub write_lcr : Serial → ℕ → Serial
write_lcr s value = record s { lcr = value; dlab = bit 7 value }

unfoldable pub write : Serial → ℕ → ℕ → Serial
write s port value =
    if port == 0
    then (if s.dlab then record s { divisor_low = value } else write_data s value)
    else if port == 1
    then (if s.dlab then record s { divisor_high = value } else write_ier s value)
    else if port == 2
    then write_fcr s value
    else if port == 3
    then write_lcr s value
    else if port == 4
    then record s { mcr = value }
    else if port == 7
    then record s { scr = value }
    else s

unfoldable pub enqueue_input : Serial → ℕ → Serial
unfolding update_iir
enqueue_input s byte =
    let s' = record s { input_buffer = s.input_buffer ++ byte ∷ []; lsr = set_bit 0 s.lsr } in
    if bit 0 s.ier then update_iir s' else s'

abbrev pub has_pending_input : Serial → Bool
has_pending_input s = not (is_empty s.input_buffer)

abbrev pub interrupt_enabled : Serial → Bool
interrupt_enabled s = bit 0 s.ier

abbrev pub interrupt_pending : Serial → Bool
interrupt_pending s = s.iir % 2 == 0

abbrev pub set_console_fd : Serial → Option ℕ → Serial
set_console_fd s fd = record s { console_fd = fd }

-- To stdout only.
unfoldable pub flush_output : Serial → Serial
flush_output s = record s { stdout = s.stdout ++ s.output_buffer; output_buffer = [] }
