-- ===== src/Vmm/Serial/Streams.antt =====
-- The serial port as two streams: no byte is lost, added or put out of order.
use clone.Prelude.{
  ℕ, ◌≡◌, refl, sym, ap, ◌∙◌, List, [], ◌∷◌, ◌++◌, append-nil, append_assoc, not, ◌&&◌, ◌==◌, arith,
  if◌then◌else◌,
}
use clone.Vmm.Serial.{
  Serial, is_empty, read, write_data, write_ier, write_fcr, write_lcr, write, enqueue_input,
  flush_output,
}
use clone.Vmm.Serial.Registers.{Access, reads, writes, enqueues, attaches, flushes, step, run}

-- All that the guest has sent: what stdout has, and what waits in the buffer.
abbrev pub sent : Serial → List ℕ
sent s = s.stdout ++ s.output_buffer

-- The byte that an access sends: one written to port 0 while the latch is closed.
abbrev pub sends : Serial → Access → List ℕ
sends s (writes port value) = if port == 0 && not s.dlab then value ∷ [] else []
sends s (reads port) = []
sends s (enqueues byte) = []
sends s (attaches fd) = []
sends s flushes = []

unfoldable pub sent_by : Serial → List Access → List ℕ
sent_by s [] = []
sent_by s (a ∷ accesses) = sends s a ++ sent_by (step s a) accesses

-- The byte that an access takes from the input, and the one that it puts there.
abbrev pub takes : Serial → Access → List ℕ
takes s (reads port) =
    if port == 0 && not s.dlab && not (is_empty s.input_buffer) then (read s port).0 ∷ [] else []
takes s (writes port value) = []
takes s (enqueues byte) = []
takes s (attaches fd) = []
takes s flushes = []

unfoldable pub taken_by : Serial → List Access → List ℕ
taken_by s [] = []
taken_by s (a ∷ accesses) = takes s a ++ taken_by (step s a) accesses

unfoldable pub typed : List Access → List ℕ
typed [] = []
typed (enqueues byte ∷ accesses) = byte ∷ typed accesses
typed (a ∷ accesses) = typed accesses

sent-step : (s : Serial) (a : Access) → sent (step s a) ≡ sent s ++ sends s a
unfolding read write write_data write_ier write_fcr write_lcr enqueue_input flush_output
sent-step s (reads port) = ground (arith, append-nil (sent s))
sent-step s (writes port value) = ground (
  arith,
  append-nil (sent s),
  append_assoc s.stdout s.output_buffer (value ∷ []),
  append-nil (s.stdout ++ s.output_buffer ++ value ∷ []),
)
sent-step s (enqueues byte) = ground (arith, append-nil (sent s))
sent-step s (attaches fd) = simp append-nil
sent-step s flushes = simp append-nil

-- For any port and any sequence of accesses, stdout and the output buffer together hold what they
-- held before and then the bytes that the guest wrote to the data register with the latch closed,
-- in order.
pub sent-run :
    (s : Serial) (accesses : List Access) → sent (run s accesses) ≡ sent s ++ sent_by s accesses
unfolding run sent_by
sent-run s [] = sym (append-nil (sent s))
sent-run s (a ∷ accesses) =
    sent-run (step s a) accesses
    ∙ ap (λ l. l ++ sent_by (step s a) accesses) (sent-step s a)
    ∙ append_assoc (sent s) (sends s a) (sent_by (step s a) accesses)

taken-step :
    (s : Serial) (a : Access) (rest : List ℕ)
    → takes s a ++ ((step s a).input_buffer ++ rest) ≡ s.input_buffer ++ (typed (a ∷ []) ++ rest)
unfolding read write write_data write_ier write_fcr write_lcr enqueue_input flush_output typed
taken-step s (reads port) rest = ground arith
taken-step s (writes port value) rest = ground arith
taken-step s (enqueues byte) rest = ground (arith, append_assoc s.input_buffer (byte ∷ []) rest)
taken-step s (attaches fd) rest = refl
taken-step s flushes rest = refl

typed-cons :
    (a : Access) (accesses : List Access) → typed (a ∷ []) ++ typed accesses ≡ typed (a ∷ accesses)
unfolding typed
typed-cons (reads port) accesses = refl
typed-cons (writes port value) accesses = refl
typed-cons (enqueues byte) accesses = refl
typed-cons (attaches fd) accesses = refl
typed-cons flushes accesses = refl

-- For any port and any sequence of accesses, the bytes that the guest has taken from the data
-- register and then those that still wait are the input from before and then what was typed, in
-- order.
pub taken-run :
    (s : Serial) (accesses : List Access)
    → taken_by s accesses ++ (run s accesses).input_buffer ≡ s.input_buffer ++ typed accesses
unfolding run taken_by typed
taken-run s [] = sym (append-nil s.input_buffer)
taken-run s (a ∷ accesses) =
    append_assoc (takes s a) (taken_by (step s a) accesses) (run (step s a) accesses).input_buffer
    ∙ ap (λ l. takes s a ++ l) (taken-run (step s a) accesses)
    ∙ taken-step s a (typed accesses)
    ∙ ap (λ l. s.input_buffer ++ l) (typed-cons a accesses)
