-- ===== src/Vmm/Serial/Bytes.antt =====
-- About vmm/serial.rs: the port's u8 fields and its input stay bytes.
use clone.Prelude.{ℕ, ◌^◌, ◌<◌, List, [], ◌∷◌, ◌++◌, arith}
use clone.Vmm.Serial.{
  Serial, read, write_data, write_ier, write_fcr, write_lcr, write, enqueue_input, flush_output,
}
use clone.Vmm.Serial.Registers.{Access, reads, writes, enqueues, attaches, flushes, step, run}
use clone.Vmm.Serial.Snapshot.{AreBytes, HasBytes}

-- What is written or typed is a byte.
abbrev pub GivesByte : Access → Type 0
GivesByte (reads port) = Unit {0}
GivesByte (writes port value) = value < 2 ^ 8
GivesByte (enqueues byte) = byte < 2 ^ 8
GivesByte (attaches fd) = Unit {0}
GivesByte flushes = Unit {0}

unfoldable pub GiveBytes : List Access → Type 0
GiveBytes [] = Unit {0}
GiveBytes (a ∷ accesses) = GivesByte a × GiveBytes accesses

AreBytes-snoc : (bs : List ℕ) (b : ℕ) → AreBytes bs → b < 2 ^ 8 → AreBytes (bs ++ b ∷ [])
unfolding AreBytes
AreBytes-snoc [] b h l = (l, tt)
AreBytes-snoc (c ∷ bs) b h l = (h.0, AreBytes-snoc bs b h.1 l)

read-HasBytes : (s : Serial) (port : ℕ) → HasBytes s → HasBytes (read s port).1
unfolding read AreBytes
read-HasBytes s port v = ground arith

write_data-HasBytes : (s : Serial) (value : ℕ) → HasBytes s → HasBytes (write_data s value)
unfolding write_data
write_data-HasBytes s value v = ground arith

write_ier-HasBytes : (s : Serial) (value : ℕ) → HasBytes s → HasBytes (write_ier s value)
unfolding write_ier
write_ier-HasBytes s value v = ground arith

write_fcr-HasBytes : (s : Serial) (value : ℕ) → HasBytes s → HasBytes (write_fcr s value)
unfolding write_fcr
write_fcr-HasBytes s value v = ground arith

write-HasBytes :
    (s : Serial) (port value : ℕ) → HasBytes s → value < 2 ^ 8 → HasBytes (write s port value)
unfolding write write_lcr
write-HasBytes s port value v h = ground (
  arith,
  write_data-HasBytes s value v,
  write_ier-HasBytes s value v,
  write_fcr-HasBytes s value v,
)

enqueue-HasBytes :
    (s : Serial) (byte : ℕ) → HasBytes s → byte < 2 ^ 8 → HasBytes (enqueue_input s byte)
unfolding enqueue_input
enqueue-HasBytes s byte v h = ground (arith, AreBytes-snoc s.input_buffer byte v.input_bytes h)

step-HasBytes : (s : Serial) (a : Access) → HasBytes s → GivesByte a → HasBytes (step s a)
unfolding flush_output
step-HasBytes s (reads port) v h = read-HasBytes s port v
step-HasBytes s (writes port value) v h = write-HasBytes s port value v h
step-HasBytes s (enqueues byte) v h = enqueue-HasBytes s byte v h
step-HasBytes s (attaches fd) v h = ground arith
step-HasBytes s flushes v h = ground arith

-- Where every byte written or typed is one, so are the registers and the input of a port whose were.
pub run-HasBytes :
    (s : Serial) (accesses : List Access)
    → HasBytes s
    → GiveBytes accesses
    → HasBytes (run s accesses)
unfolding run GiveBytes
run-HasBytes s [] v h = v
run-HasBytes s (a ∷ accesses) v h = run-HasBytes (step s a) accesses (step-HasBytes s a v h.0) h.1
