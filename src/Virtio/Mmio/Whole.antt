-- ===== src/Virtio/Mmio/Whole.antt =====
-- The whole write handler, the chains that it serves included, keeps the transport's pairs.
use clone.Prelude.{
  ℕ, zero, suc, ◌^◌, ◌%◌, ◌≡◌, refl, none, some, Option, List, [], ◌∷◌, false, arith, get_elem?,
  set, ret, inl, inr, Option-cases, Bool-cases, from_le, leb, length, ◌==◌,
}
use clone.Memory.Store.{Store}
use clone.Virtio.Queue.{Virtqueue, DescriptorChain, pop_avail}
use clone.Virtio.Queue.Avail.{pop_avail_iff, pop_avail-none}
use clone.Virtio.Device.{VirtioDevice}
use clone.Virtio.Mmio.{MmioTransport, QueueState, raise_used_ring_interrupt}
use clone.Virtio.Mmio.Registers.{Register, register}
use clone.Virtio.Mmio.Drain.{
  Outcome, finished, panicked, exhausted, Served, serve, drain, put_back, process_queue_descriptors,
}
use clone.Virtio.Mmio.Drain.Ends.{Pop-cases}
use clone.Virtio.Mmio.Write.{notify, dispatch, write}
use clone.Virtio.Mmio.Inv.{Paired, IsPaired, write_register-IsPaired}

-- A virtqueue that differs at most in the entries it has consumed.
record SameShape (v w : Virtqueue) : Type 0 where
  same_size : w.size ≡ v.size
  same_ready : w.ready ≡ v.ready

pop-SameShape :
    (v : Virtqueue) (s : Store) (o : Option DescriptorChain) (w : Virtqueue)
    → pop_avail v s ≡ ret (o, w)
    → SameShape v w
pop-SameShape v s none w e =
    rw (pop_avail-none v s e) (record { same_size = refl; same_ready = refl })
pop-SameShape v s (some c) w e =
    rw ((pop_avail_iff v s c w).0 e).1 (record { same_size = refl; same_ready = refl })

SameShape-trans : {u v w : Virtqueue} → SameShape u v → SameShape v w → SameShape u w
SameShape-trans p q = ground arith

module _ {D : Type 0} (dev : VirtioDevice D) where
  drain-SameShape :
      (i fuel : ℕ) (st st' : Served D) → drain dev i fuel st ≡ finished st' → SameShape st.vq st'.vq
  unfolding drain serve
  drain-SameShape i zero st st' e = cc
  drain-SameShape i (suc fuel) st st' e = elim (Pop-cases (pop_avail st.vq st.mem)) [
    | inl panics ↦ ground arith
    | inr (inl (w, nothing)) ↦ ground (arith, pop-SameShape st.vq st.mem none w nothing)
    | inr (inr (c, w, popped)) ↦
        SameShape-trans (pop-SameShape st.vq st.mem (some c) w popped)
          (drain-SameShape i fuel (serve dev i st c w) st' (ground arith))
  ]

  Paired-set :
      (qss : List QueueState) (vqs : List Virtqueue) (i : ℕ) {v w : Virtqueue}
      → get_elem? vqs i ≡ some v
      → SameShape v w
      → Paired qss vqs
      → Paired qss (set vqs i w)
  Paired-set [] [] i e same h = tt
  Paired-set [] (v ∷ vqs) i e same h = absurd h
  Paired-set (qs ∷ qss) [] i e same h = absurd h
  Paired-set (qs ∷ qss) (v ∷ vqs) zero e same h = (ground arith, h.1)
  Paired-set (qs ∷ qss) (v ∷ vqs) (suc i) e same h = (h.0, Paired-set qss vqs i e same h.1)

  put_back-inv :
      (i : ℕ) (t : MmioTransport D) (r : Outcome (Served D)) (t' : MmioTransport D) (s' : Store)
      → put_back dev i t r ≡ finished (t', s')
      → (st : Served D) × (r ≡ finished st)
        × (t'.queues ≡ t.queues)
        × (t'.virtqueues ≡ set t.virtqueues i st.vq)
  unfolding raise_used_ring_interrupt
  put_back-inv i t panicked t' s' e = cc
  put_back-inv i t exhausted t' s' e = cc
  put_back-inv i t (finished st) t' s' e = (st, refl, ground arith, ground arith)

  process-IsPaired :
      (i fuel : ℕ) (t : MmioTransport D) (s : Store) (t' : MmioTransport D) (s' : Store)
      → IsPaired dev t
      → process_queue_descriptors dev i fuel t s ≡ finished (t', s')
      → IsPaired dev t'
  unfolding process_queue_descriptors
  process-IsPaired i fuel t s t' s' h e = elim (Option-cases (get_elem? t.virtqueues i)) [
    | inl p ↦ ground arith
    | inr (vq, p) ↦ elim (Bool-cases vq.ready) [
      | inl r ↦
          let start : Served D = record { device = t.device; mem = s; vq = vq; raised = false } in
          let (st, drained, same_queues, same_vqs) =
            put_back-inv i t (drain dev i fuel start) t' s' (ground arith) in
          rw (same_queues, same_vqs)
            (Paired-set t.queues t.virtqueues i p (drain-SameShape i fuel start st drained) h)
      | inr r ↦ ground arith
    ]
  ]

  notify-IsPaired :
      (fuel : ℕ) (t : MmioTransport D) (s : Store) (val : ℕ) (t' : MmioTransport D) (s' : Store)
      → IsPaired dev t
      → notify dev fuel t s val ≡ finished (t', s')
      → IsPaired dev t'
  unfolding notify
  notify-IsPaired fuel t s val t' s' h e =
      let i = val % 2 ^ 16 in
      let r = dev.process_queue t.device s i in
      elim (Bool-cases (dev.transport_processes_queue r.0 i)) [
        | inl y ↦ process-IsPaired i fuel (record t { device = r.0 }) r.1 t' s' h (ground arith)
        | inr n ↦ ground arith
      ]

  dispatch-IsPaired :
      (fuel : ℕ) (t : MmioTransport D) (s : Store) (r : Register) (val : ℕ) (t' : MmioTransport D)
      (s' : Store)
      → IsPaired dev t
      → dispatch dev fuel t s r val ≡ finished (t', s')
      → IsPaired dev t'
  dispatch-IsPaired fuel t s Register.queue_notify val t' s' h e =
      notify-IsPaired fuel t s val t' s' h e
  dispatch-IsPaired fuel t s r val t' s' h e = ground (arith, write_register-IsPaired dev t r val h)

  -- If the queue states and the virtqueues of a transport are paired (there are as many, and each
  -- pair has a configured size of at most the maximum, that maximum as the virtqueue's own size,
  -- and the same ready flag), then after a write of any bytes to any offset that ends, QUEUE_NOTIFY
  -- and a reset included, they are paired again.
  pub write-IsPaired :
      (fuel : ℕ) (t : MmioTransport D) (s : Store) (offset : ℕ) (bytes : List ℕ)
      (t' : MmioTransport D) (s' : Store)
      → IsPaired dev t
      → write dev fuel t s offset bytes ≡ finished (t', s')
      → IsPaired dev t'
  unfolding write
  write-IsPaired fuel t s offset bytes t' s' h e = elim (Bool-cases (leb 0x100 offset)) [
    | inl c ↦ ground arith
    | inr c ↦ elim (Bool-cases (length bytes == 4)) [
      | inl l ↦ dispatch-IsPaired fuel t s (register offset) (from_le bytes) t' s' h (ground arith)
      | inr l ↦ ground arith
    ]
  ]
