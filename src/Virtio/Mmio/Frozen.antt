-- ===== src/Virtio/Mmio/Frozen.antt =====
-- The features that a driver has accepted, after FEATURES_OK.
use clone.Prelude.{
  ℕ, ◌≡◌, ◌≢◌, refl, ◌∙◌, Option-cases, Bool-cases, inl, inr, ◌⊎◌, ◌-◌, List, [], ◌∷◌, true, false,
  arith, get_elem?, leb, ◌==◌, length, from_le, ◌%◌, ◌^◌,
}
use clone.Memory.Store.{Store}
use clone.Virtio.Device.{VirtioDevice}
use clone.Virtio.Mmio.{MmioTransport, bit, raise_used_ring_interrupt}
use clone.Virtio.Mmio.Registers.{Register, register}
use clone.Virtio.Mmio.Drain.{
  Outcome, finished, panicked, exhausted, Served, drain, put_back, process_queue_descriptors,
}
use clone.Virtio.Mmio.Write.{notify, dispatch, write, write_register}

module _ {D : Type 0} (dev : VirtioDevice D) where
  -- Register writes one after another, each with what the guest has in memory by then.
  unfoldable pub driver_writes :
      ℕ → MmioTransport D → List (Store × ℕ × List ℕ) → Outcome (MmioTransport D)
  driver_writes fuel t [] = finished t
  driver_writes fuel t ((s, offset, bytes) ∷ ws) = elim (write dev fuel t s offset bytes) [
    | panicked ↦ panicked
    | exhausted ↦ exhausted
    | finished (t', s') ↦ driver_writes fuel t' ws
  ]

-- None of the writes is to STATUS.
unfoldable pub LeavesStatus : List (Store × ℕ × List ℕ) → Type 0
LeavesStatus [] = Unit {0}
LeavesStatus ((s, offset, bytes) ∷ ws) = (offset ≢ 0x070) × LeavesStatus ws

module _ {D : Type 0} where
  -- The accepted features and the status are the same.
  record SameDriver (t t' : MmioTransport D) : Type 0 where
    same_features : t'.driver_features ≡ t.driver_features
    same_status : t'.device_status ≡ t.device_status

  SameDriver-refl : (t : MmioTransport D) → SameDriver t t
  SameDriver-refl t = record { same_features = refl; same_status = refl }

Outcome-cases :
    {A : Type 0} (r : Outcome A) → ((r ≡ panicked) ⊎ (r ≡ exhausted)) ⊎ ((a : A) × (r ≡ finished a))
Outcome-cases panicked = inl (inl refl)
Outcome-cases exhausted = inl (inr refl)
Outcome-cases (finished a) = inr (a, refl)

register-status : (offset : ℕ) → offset ≢ 0x070 → register offset ≢ Register.status
unfolding register
register-status offset ne e = ground arith

module _ {D : Type 0} (dev : VirtioDevice D) where
  write_register-SameDriver :
      (t : MmioTransport D) (r : Register) (val : ℕ)
      → bit 3 t.device_status ≡ true
      → r ≢ Register.status
      → SameDriver t (write_register dev t r val)
  unfolding write_register
  write_register-SameDriver t Register.status val ok ne = absurd (ne refl)
  write_register-SameDriver t Register.driver_features val ok ne = record {
    same_features = ground arith;
    same_status = ground arith;
  }
  write_register-SameDriver t _ val ok ne = record { same_features = refl; same_status = refl }

  put_back-SameDriver :
      (i : ℕ) (t : MmioTransport D) (r : Outcome (Served D)) (t' : MmioTransport D) (s' : Store)
      → put_back dev i t r ≡ finished (t', s')
      → SameDriver t t'
  unfolding raise_used_ring_interrupt
  put_back-SameDriver i t panicked t' s' e = cc
  put_back-SameDriver i t exhausted t' s' e = cc
  put_back-SameDriver i t (finished st) t' s' e = record {
    same_features = ground arith;
    same_status = ground arith;
  }

  process-SameDriver :
      (i fuel : ℕ) (t : MmioTransport D) (s : Store) (t' : MmioTransport D) (s' : Store)
      → process_queue_descriptors dev i fuel t s ≡ finished (t', s')
      → SameDriver t t'
  unfolding process_queue_descriptors
  process-SameDriver i fuel t s t' s' e = elim (Option-cases (get_elem? t.virtqueues i)) [
    | inl p ↦ ground (arith, SameDriver-refl t)
    | inr (vq, p) ↦ elim (Bool-cases vq.ready) [
      | inl r ↦
          let start : Served D = record { device = t.device; mem = s; vq = vq; raised = false } in
          put_back-SameDriver i t (drain dev i fuel start) t' s' (ground arith)
      | inr r ↦ ground (arith, SameDriver-refl t)
    ]
  ]

  notify-SameDriver :
      (fuel : ℕ) (t : MmioTransport D) (s : Store) (val : ℕ) (t' : MmioTransport D) (s' : Store)
      → notify dev fuel t s val ≡ finished (t', s')
      → SameDriver t t'
  unfolding notify
  notify-SameDriver fuel t s val t' s' e =
      let i = val % 2 ^ 16 in
      let r = dev.process_queue t.device s i in
      let u = record t { device = r.0 } in
      let same : SameDriver t u = record { same_features = refl; same_status = refl } in
      elim (Bool-cases (dev.transport_processes_queue r.0 i)) [
        | inl y ↦
            let h : SameDriver u t' = process-SameDriver i fuel u r.1 t' s' (ground arith) in
            record { same_features = h.same_features; same_status = h.same_status }
        | inr n ↦ ground (arith, same)
      ]

  dispatch-SameDriver :
      (fuel : ℕ) (t : MmioTransport D) (s : Store) (r : Register) (val : ℕ) (t' : MmioTransport D)
      (s' : Store)
      → bit 3 t.device_status ≡ true
      → r ≢ Register.status
      → dispatch dev fuel t s r val ≡ finished (t', s')
      → SameDriver t t'
  dispatch-SameDriver fuel t s Register.queue_notify val t' s' ok ne e =
      notify-SameDriver fuel t s val t' s' e
  dispatch-SameDriver fuel t s r val t' s' ok ne e =
      ground (arith, write_register-SameDriver t r val ok ne)

  write-SameDriver :
      (fuel : ℕ) (t : MmioTransport D) (s : Store) (offset : ℕ) (bytes : List ℕ)
      (t' : MmioTransport D) (s' : Store)
      → bit 3 t.device_status ≡ true
      → offset ≢ 0x070
      → write dev fuel t s offset bytes ≡ finished (t', s')
      → SameDriver t t'
  unfolding write
  write-SameDriver fuel t s offset bytes t' s' ok ne e = elim (Bool-cases (leb 0x100 offset)) [
    | inl c ↦
        let device = dev.write_config t.device (offset - 0x100) bytes in
        let same : SameDriver t (record t { device = device }) = record {
          same_features = refl;
          same_status = refl;
        } in
        ground (arith, same)
    | inr c ↦ elim (Bool-cases (length bytes == 4)) [
      | inl l ↦
          dispatch-SameDriver fuel t s (register offset) (from_le bytes) t' s' ok
            (register-status offset ne) (ground arith)
      | inr l ↦ ground (arith, SameDriver-refl t)
    ]
  ]

  -- On a transport whose status has FEATURES_OK, after any sequence of writes of any bytes to any
  -- offsets but that of STATUS (QUEUE_NOTIFY with the chains that it serves and the device's own
  -- configuration included, each write with any contents of the guest's memory) that all end, the
  -- features that the driver has accepted and the status are what they were.
  pub features_frozen :
      (fuel : ℕ) (t : MmioTransport D) (ws : List (Store × ℕ × List ℕ)) (t' : MmioTransport D)
      → bit 3 t.device_status ≡ true
      → LeavesStatus ws
      → driver_writes dev fuel t ws ≡ finished t'
      → (t'.driver_features ≡ t.driver_features) × (t'.device_status ≡ t.device_status)
  unfolding driver_writes LeavesStatus
  features_frozen fuel t [] t' ok avoids e = ground arith
  features_frozen fuel t ((s, offset, bytes) ∷ ws) t' ok avoids e =
      elim (Outcome-cases (write dev fuel t s offset bytes)) [
        | inl (inl panics) ↦ ground arith
        | inl (inr runs_out) ↦ ground arith
        | inr ((u, s'), ends) ↦
            let h = write-SameDriver fuel t s offset bytes u s' ok avoids.0 ends in
            let rest = features_frozen fuel u ws t' (rw h.same_status ok) avoids.1 (ground arith) in
            (rest.0 ∙ h.same_features, rest.1 ∙ h.same_status)
      ]
