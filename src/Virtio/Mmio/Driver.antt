-- ===== src/Virtio/Mmio/Driver.antt =====
-- What a driver's register writes do to the transport.
use clone.Prelude.{
  ℕ, zero, suc, ◌^◌, ◌%◌, ◌≤◌, ◌<◌, ◌≡◌, ◌≢◌, refl, ap, ◌∙◌, some, List, [], ◌∷◌, true, arith,
  get_elem?, map, leb, if◌then◌else◌,
}
use clone.Virtio.Queue
use clone.Virtio.Queue.{Virtqueue}
use clone.Virtio.Device.{VirtioDevice}
use clone.Virtio.Mmio.{
  MmioTransport, QueueState, fresh_queue, new_with_mem, read_register, queue_field,
}
use clone.Virtio.Mmio.Registers.{Register}
use clone.Virtio.Mmio.Write.{set_queue, sync_virtqueues, write_register, handle_status_write}
use clone.Virtio.Mmio.Inv.{Paired, IsPaired}

module _ {D : Type 0} (dev : VirtioDevice D) where
  -- On an active transport, a write to any register but DRIVER_FEATURES, of any value that is not 0
  -- where the register is STATUS, neither activates the device again nor touches its state, and
  -- leaves the transport active; QUEUE_NOTIFY, which `notify` handles, does nothing here.
  pub active_once :
      (t : MmioTransport D) (r : Register) (val : ℕ)
      → t.activated ≡ true
      → (r ≡ Register.status → val ≢ 0)
      → r ≢ Register.driver_features
      → let t' = write_register dev t r val in (t'.device ≡ t.device) × (t'.activated ≡ true)
  unfolding write_register handle_status_write
  active_once t Register.status val e nz nf = let h = nz refl in ground arith
  active_once t Register.driver_features val e nz nf = absurd (nf refl)
  active_once t Register.queue_ready val e nz nf = (refl, e)
  active_once t _ val e nz nf = (refl, e)

  fresh-map :
      (qs : List QueueState)
      → map (λ q. fresh_queue q.max_size) qs ≡ map fresh_queue (map (λ q. q.max_size) qs)
  fresh-map [] = refl
  fresh-map (q ∷ qs) = rw (fresh-map qs)

  reset_queues :
      (t : MmioTransport D)
      → map (λ q. q.max_size) t.queues ≡ dev.queue_max_sizes (dev.reset t.device)
      → (handle_status_write dev t 0).queues
        ≡ (new_with_mem dev (dev.reset t.device) t.irq t.mem_is_null t.guest_mem_size).queues
  unfolding handle_status_write new_with_mem
  reset_queues t sizes = fresh-map t.queues ∙ ap (map fresh_queue) sizes

  -- If the reset device reports the sizes of the transport's queues, then after the driver writes 0
  -- to STATUS every register but INTERRUPT_STATUS and CONFIG_GENERATION reads as on a new transport
  -- of the reset device.
  pub reset_reads_fresh :
      (t : MmioTransport D) (r : Register)
      → map (λ q. q.max_size) t.queues ≡ dev.queue_max_sizes (dev.reset t.device)
      → r ≢ Register.interrupt_status
      → r ≢ Register.config_generation
      → read_register dev (handle_status_write dev t 0) r
        ≡ read_register dev
            (new_with_mem dev (dev.reset t.device) t.irq t.mem_is_null t.guest_mem_size)
            r
  unfolding read_register handle_status_write new_with_mem
  reset_reads_fresh t Register.interrupt_status sizes ni nc = absurd (ni refl)
  reset_reads_fresh t Register.config_generation sizes ni nc = absurd (nc refl)
  reset_reads_fresh t Register.queue_num_max sizes ni nc =
      ap (λ qs. queue_field (λ q. q.max_size) (get_elem? qs 0)) (reset_queues t sizes)
  reset_reads_fresh t Register.queue_ready sizes ni nc =
      ap (λ qs. queue_field (λ q. if q.ready then 1 else 0) (get_elem? qs 0)) (reset_queues t sizes)
  reset_reads_fresh t _ sizes ni nc = refl

-- What becomes of the selected pair when its size and then its flag are written.
negotiate :
    (n sel : ℕ) (qss : List QueueState) (vqs : List Virtqueue) (qs : QueueState)
    → Paired qss vqs
    → get_elem? qss sel ≡ some qs
    → n ≤ qs.max_size
    → n < 2 ^ 16
    → let sized =
        set_queue qss sel (λ q. if leb n q.max_size then record q { size = n % 2 ^ 16 } else q) in
      let enabled = set_queue sized sel (λ q. record q { ready = true }) in
      (qs' : QueueState) × (vq : Virtqueue) × (get_elem? enabled sel ≡ some qs')
      × (get_elem? (sync_virtqueues enabled vqs sel true) sel ≡ some vq)
      × (qs'.size ≡ n)
      × (vq.ready ≡ true)
      × (vq.size ≡ qs.max_size)
unfolding Queue.configure Queue.set_ready
negotiate n sel [] vqs qs p e l w = cc
negotiate n sel (q ∷ qss) [] qs p e l w = absurd p
negotiate n zero (q ∷ qss) (v ∷ vqs) qs p e l w =
    (_, _, refl, refl, ground arith, refl, ground arith)
negotiate n (suc sel) (q ∷ qss) (v ∷ vqs) qs p e l w = negotiate n sel qss vqs qs p.1 e l w

module _ {D : Type 0} (dev : VirtioDevice D) where
  -- On a paired transport whose selected queue exists, with a maximum below 2 ^ 16: after QUEUE_NUM
  -- is written with a smaller size `n` and QUEUE_READY with 1, the queue state has the size `n` and
  -- the virtqueue is ready, but the virtqueue's own size, which its rings are read by, is not `n`.
  pub negotiated_size_unused :
      (t : MmioTransport D) (qs : QueueState) (n : ℕ)
      → IsPaired dev t
      → get_elem? t.queues t.queue_sel ≡ some qs
      → n < qs.max_size
      → qs.max_size < 2 ^ 16
      → let t' =
          write_register dev (write_register dev t Register.queue_num n) Register.queue_ready 1 in
        (qs' : QueueState) × (vq : Virtqueue) × (get_elem? t'.queues t.queue_sel ≡ some qs')
        × (get_elem? t'.virtqueues t.queue_sel ≡ some vq)
        × (qs'.size ≡ n)
        × (vq.ready ≡ true)
        × (vq.size ≢ qs'.size)
  unfolding write_register
  negotiated_size_unused t qs n p e l w =
      let (qs', vq, h1, h2, h3, h4, h5) =
        negotiate n t.queue_sel t.queues t.virtqueues qs p e (omega arith) (omega arith) in
      (qs', vq, h1, h2, h3, h4, omega arith)
