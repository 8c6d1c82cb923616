-- ===== src/Vmm/Serial/Registers.antt =====
-- The serial port's registers: what holds of them after any sequence of accesses.
use clone.Prelude.{
  ℕ, ◌%◌, ◌<◌, ◌≡◌, refl, Option, List, [], ◌∷◌, ◌++◌, Bool, true, false, not, ◌&&◌, ◌||◌, ◌==◌,
  if◌then◌else◌, arith, length, length-append,
}
use clone.Vmm.Serial.{
  Serial, new, bit, is_empty, pending_code, read, write_data, write_ier, write_fcr, write_lcr,
  write, enqueue_input, set_console_fd, flush_output, interrupt_pending, has_pending_input,
}

-- What the guest and the host do to the port.
pub data Access : Type 0 where
  reads : ℕ → Access
  writes : ℕ → ℕ → Access
  enqueues : ℕ → Access
  attaches : Option ℕ → Access
  flushes : Access

abbrev pub step : Serial → Access → Serial
step s (reads port) = (read s port).1
step s (writes port value) = write s port value
step s (enqueues byte) = enqueue_input s byte
step s (attaches fd) = set_console_fd s fd
step s flushes = flush_output s

unfoldable pub run : Serial → List Access → Serial
run s [] = s
run s (a ∷ accesses) = run (step s a) accesses

-- IIR names the interrupt that the enables and the input call for, LSR says whether there is input,
-- the latch bit is that of LCR, and the output buffer has room.
pub record IsConsistent (s : Serial) : Type 0 where
  pub iir_code : s.iir % 64 ≡ pending_code s.ier (is_empty s.input_buffer)
  pub data_ready : bit 0 s.lsr ≡ not (is_empty s.input_buffer)
  pub latch : s.dlab ≡ bit 7 s.lcr
  pub room : length s.output_buffer < 256

not-empty-snoc : (bs : List ℕ) (b : ℕ) → is_empty (bs ++ b ∷ []) ≡ false
not-empty-snoc [] b = refl
not-empty-snoc (c ∷ bs) b = refl

read-IsConsistent : (s : Serial) (port : ℕ) → IsConsistent s → IsConsistent (read s port).1
unfolding read
read-IsConsistent s port v = ground arith

write_data-IsConsistent :
    (s : Serial) (value : ℕ) → IsConsistent s → IsConsistent (write_data s value)
unfolding write_data
write_data-IsConsistent s value v = ground (arith, length-append {0} s.output_buffer (value ∷ []))

write_ier-IsConsistent :
    (s : Serial) (value : ℕ) → IsConsistent s → IsConsistent (write_ier s value)
unfolding write_ier
write_ier-IsConsistent s value v = ground arith

write_fcr-IsConsistent :
    (s : Serial) (value : ℕ) → IsConsistent s → IsConsistent (write_fcr s value)
unfolding write_fcr
write_fcr-IsConsistent s value v = ground arith

write_lcr-IsConsistent :
    (s : Serial) (value : ℕ) → IsConsistent s → IsConsistent (write_lcr s value)
unfolding write_lcr
write_lcr-IsConsistent s value v = ground arith

if_keeps :
    (b : Bool) {s t : Serial} → IsConsistent s → IsConsistent t → IsConsistent (if b then s else t)
if_keeps true v w = v
if_keeps false v w = w

write-IsConsistent :
    (s : Serial) (port value : ℕ) → IsConsistent s → IsConsistent (write s port value)
unfolding write
write-IsConsistent s port value v =
    if_keeps (port == 0) (if_keeps s.dlab (assumption) (write_data-IsConsistent s value v)) (
      if_keeps (port == 1) (if_keeps s.dlab (assumption) (write_ier-IsConsistent s value v)) (
        if_keeps (port == 2) (write_fcr-IsConsistent s value v) (
          if_keeps (port == 3) (write_lcr-IsConsistent s value v)
            (if_keeps (port == 4) (assumption) (if_keeps (port == 7) (assumption) v)))))

enqueue-IsConsistent :
    (s : Serial) (byte : ℕ) → IsConsistent s → IsConsistent (enqueue_input s byte)
unfolding enqueue_input
enqueue-IsConsistent s byte v = ground (arith, not-empty-snoc s.input_buffer byte)

step-IsConsistent : (s : Serial) (a : Access) → IsConsistent s → IsConsistent (step s a)
unfolding flush_output
step-IsConsistent s (reads port) v = read-IsConsistent s port v
step-IsConsistent s (writes port value) v = write-IsConsistent s port value v
step-IsConsistent s (enqueues byte) v = enqueue-IsConsistent s byte v
step-IsConsistent s (attaches fd) v = ground arith
step-IsConsistent s flushes v = ground arith

run-IsConsistent :
    (s : Serial) (accesses : List Access) → IsConsistent s → IsConsistent (run s accesses)
unfolding run
run-IsConsistent s [] v = v
run-IsConsistent s (a ∷ accesses) v = run-IsConsistent (step s a) accesses (step-IsConsistent s a v)

-- After any sequence of accesses to a new port its registers are consistent: IIR names the
-- interrupt that the enables and the input call for, LSR says whether there is input, the latch
-- flag is that of LCR, and the output buffer holds less than 256 bytes.
pub run-new-IsConsistent : (accesses : List Access) → IsConsistent (run new accesses)
run-new-IsConsistent accesses =
    run-IsConsistent new accesses
      (record { iir_code = refl; data_ready = refl; latch = refl; room = omega arith })

-- After any sequence of accesses to a new port, an interrupt is pending exactly when the guest has
-- enabled that of received data and there is input, or has enabled that of the empty transmitter. A
-- read of IIR does not clear the second.
pub interrupt_pending-run :
    (accesses : List Access)
    → let s = run new accesses in
      interrupt_pending s ≡ (bit 0 s.ier && has_pending_input s) || bit 1 s.ier
interrupt_pending-run accesses = pending (run new accesses) (run-new-IsConsistent accesses)
  where
    pending :
        (s : Serial)
        → IsConsistent s
        → interrupt_pending s ≡ (bit 0 s.ier && has_pending_input s) || bit 1 s.ier
    pending s v = ground arith
