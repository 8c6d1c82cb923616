-- ===== src/Virtio/Mmio/Inv.antt =====
-- The transport's invariant: its queue states and its virtqueues go in pairs.
use clone.Prelude.{
  ℕ, zero, suc, ◌^◌, ◌%◌, ◌≤◌, ◌≡◌, refl, List, [], ◌∷◌, Bool, true, false, arith, map, ◌==◌, leb,
  if◌then◌else◌,
}
use clone.Virtio.Queue
use clone.Virtio.Queue.{Virtqueue}
use clone.Virtio.Device.{VirtioDevice}
use clone.Virtio.Mmio.{MmioTransport, QueueState, fresh_queue, new_with_mem}
use clone.Virtio.Mmio.Registers.{Register}
use clone.Virtio.Mmio.Write.{
  set_queue, sync_virtqueues, write_register, handle_status_write, write_driver_features,
  after_activate, activate,
}

-- A configured size is at most the device's, a virtqueue always works with the device's maximum,
-- and it is in use exactly when the QUEUE_READY register says so.
pub record Match (qs : QueueState) (vq : Virtqueue) : Type 0 where
  pub within : qs.size ≤ qs.max_size
  pub max_used : vq.size ≡ qs.max_size
  pub same_ready : vq.ready ≡ qs.ready

abbrev pub Paired : List QueueState → List Virtqueue → Type 0
Paired [] [] = Unit {0}
Paired [] (vq ∷ vqs) = ⊥
Paired (qs ∷ qss) [] = ⊥
Paired (qs ∷ qss) (vq ∷ vqs) = Match qs vq × Paired qss vqs

Paired-fresh :
    (sizes : List ℕ) (mem_is_null : Bool) (mem_size : ℕ)
    → Paired (map fresh_queue sizes) (map (λ n. Queue.new n mem_is_null mem_size) sizes)
unfolding Queue.new
Paired-fresh [] b m = tt
Paired-fresh (n ∷ ns) b m =
    (record { within = omega arith; max_used = refl; same_ready = refl }, Paired-fresh ns b m)

Paired-reset :
    (qss : List QueueState) (vqs : List Virtqueue)
    → Paired qss vqs
    → Paired (map (λ q. fresh_queue q.max_size) qss) (map Queue.reset vqs)
unfolding Queue.reset
Paired-reset [] [] h = tt
Paired-reset [] (vq ∷ vqs) h = absurd h
Paired-reset (qs ∷ qss) [] h = absurd h
Paired-reset (qs ∷ qss) (vq ∷ vqs) h = (
  record { within = omega arith; max_used = h.0.max_used; same_ready = refl },
  Paired-reset qss vqs h.1,
)

-- A change of the selected queue that keeps its size in range and its flag keeps the pairs.
Paired-set_queue :
    (f : QueueState → QueueState)
    → ((qs : QueueState) (vq : Virtqueue) → Match qs vq → Match (f qs) vq)
    → (qss : List QueueState) (vqs : List Virtqueue) (sel : ℕ) → Paired qss vqs
    → Paired (set_queue qss sel f) vqs
Paired-set_queue f keep [] vqs sel h = h
Paired-set_queue f keep (qs ∷ qss) [] sel h = absurd h
Paired-set_queue f keep (qs ∷ qss) (vq ∷ vqs) zero h = (keep qs vq h.0, h.1)
Paired-set_queue f keep (qs ∷ qss) (vq ∷ vqs) (suc sel) h =
    (h.0, Paired-set_queue f keep qss vqs sel h.1)

-- QUEUE_READY sets the flag on both sides at once.
Paired-ready :
    (enable : Bool) (qss : List QueueState) (vqs : List Virtqueue) (sel : ℕ)
    → Paired qss vqs
    → let qss' = set_queue qss sel (λ q. record q { ready = enable }) in
      Paired qss' (sync_virtqueues qss' vqs sel enable)
unfolding Queue.configure Queue.set_ready
Paired-ready enable [] vqs sel h = h
Paired-ready enable (qs ∷ qss) [] sel h = absurd h
Paired-ready true (qs ∷ qss) (vq ∷ vqs) zero h =
    (record { within = h.0.within; max_used = h.0.max_used; same_ready = refl }, h.1)
Paired-ready false (qs ∷ qss) (vq ∷ vqs) zero h =
    (record { within = h.0.within; max_used = h.0.max_used; same_ready = refl }, h.1)
Paired-ready enable (qs ∷ qss) (vq ∷ vqs) (suc sel) h = (h.0, Paired-ready enable qss vqs sel h.1)

addr_keeps :
    {qs qs' : QueueState} {vq : Virtqueue}
    → Match qs vq
    → (qs'.size ≡ qs.size) × (qs'.max_size ≡ qs.max_size) × (qs'.ready ≡ qs.ready)
    → Match qs' vq
addr_keeps m e = ground arith

module _ {D : Type 0} (dev : VirtioDevice D) where
  abbrev pub IsPaired : MmioTransport D → Type 0
  IsPaired t = Paired t.queues t.virtqueues

  -- A new transport is paired.
  pub new-IsPaired :
      (d : D) (irq : ℕ) (mem_is_null : Bool) (mem_size : ℕ)
      → IsPaired (new_with_mem dev d irq mem_is_null mem_size)
  unfolding new_with_mem
  new-IsPaired d irq b m = Paired-fresh (dev.queue_max_sizes d) b m

  after_activate-IsPaired :
      (t : MmioTransport D) (val : ℕ) (r : D × Bool)
      → IsPaired t
      → IsPaired (after_activate dev t val r)
  after_activate-IsPaired t val (d, true) h = h
  after_activate-IsPaired t val (d, false) h = h

  status-IsPaired :
      (t : MmioTransport D) (val : ℕ) → IsPaired t → IsPaired (handle_status_write dev t val)
  unfolding handle_status_write
  status-IsPaired t val h = ground (
    arith,
    Paired-reset t.queues t.virtqueues h,
    after_activate-IsPaired t val (activate dev t) h,
  )

  features-IsPaired :
      (t : MmioTransport D) (val : ℕ) → IsPaired t → IsPaired (write_driver_features dev t val)
  unfolding write_driver_features
  features-IsPaired t val h = ground arith

  -- Every register write keeps the pairs: whatever size the driver asks for, the virtqueue goes on
  -- with the maximum.
  pub write_register-IsPaired :
      (t : MmioTransport D) (r : Register) (val : ℕ)
      → IsPaired t
      → IsPaired (write_register dev t r val)
  unfolding write_register
  write_register-IsPaired t Register.status val h = status-IsPaired t val h
  write_register-IsPaired t Register.driver_features val h = features-IsPaired t val h
  write_register-IsPaired t Register.queue_num val h =
      Paired-set_queue _ (λ qs vq m. num_keeps qs vq val m) t.queues t.virtqueues t.queue_sel h
    where
      num_keeps :
          (qs : QueueState) (vq : Virtqueue) (n : ℕ)
          → Match qs vq
          → Match (if leb n qs.max_size then record qs { size = n % 2 ^ 16 } else qs) vq
      num_keeps qs vq n m = ground arith
  write_register-IsPaired t Register.queue_ready val h =
      Paired-ready (val == 1) t.queues t.virtqueues t.queue_sel h
  write_register-IsPaired t Register.queue_desc_low val h =
      Paired-set_queue _ (λ qs vq m. addr_keeps m (refl, refl, refl)) t.queues t.virtqueues
        t.queue_sel h
  write_register-IsPaired t Register.queue_desc_high val h =
      Paired-set_queue _ (λ qs vq m. addr_keeps m (refl, refl, refl)) t.queues t.virtqueues
        t.queue_sel h
  write_register-IsPaired t Register.queue_avail_low val h =
      Paired-set_queue _ (λ qs vq m. addr_keeps m (refl, refl, refl)) t.queues t.virtqueues
        t.queue_sel h
  write_register-IsPaired t Register.queue_avail_high val h =
      Paired-set_queue _ (λ qs vq m. addr_keeps m (refl, refl, refl)) t.queues t.virtqueues
        t.queue_sel h
  write_register-IsPaired t Register.queue_used_low val h =
      Paired-set_queue _ (λ qs vq m. addr_keeps m (refl, refl, refl)) t.queues t.virtqueues
        t.queue_sel h
  write_register-IsPaired t Register.queue_used_high val h =
      Paired-set_queue _ (λ qs vq m. addr_keeps m (refl, refl, refl)) t.queues t.virtqueues
        t.queue_sel h
  write_register-IsPaired t _ val h = h
