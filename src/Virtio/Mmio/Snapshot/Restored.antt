-- ===== src/Virtio/Mmio/Snapshot/Restored.antt =====
-- What a transport is like after restore_state.
use clone.Prelude.{
  ℕ, ◌≤◌, ap, ◌≡◌, ◌≢◌, refl, sym, List, [], ◌∷◌, Bool, true, false, arith, map, subst,
}
use clone.Memory.Store.{Store}
use clone.Virtio.Queue
use clone.Virtio.Queue.{Virtqueue, add64}
use clone.Virtio.Device.{VirtioDevice}
use clone.Virtio.Mmio.{MmioTransport, QueueState, read_register, new_with_mem}
use clone.Virtio.Mmio.Registers.{Register}
use clone.Virtio.Mmio.Inv.{Match, Paired, IsPaired}
use clone.Virtio.Mmio.Snapshot.{
  restore_queue, restore_queues, MmioTransportState, snapshot_state, restore_state, reactivate,
  finish_restore, assign_state,
}

synced_has_none :
    (v : Virtqueue) (s : Store)
    → v.avail_ring ≢ 0
    → Queue.has_available (Queue.sync_avail_from_guest v s) s ≡ false
unfolding Queue.has_available Queue.sync_avail_from_guest Queue.read_avail_idx Queue.read_uint
    Queue.guest_read Queue.slice_offset Queue.gpa_to_offset
synced_has_none v s a = ground arith

-- A ready queue with an available ring that does not stand at 0 has nothing available just after
-- its restore, whatever the ring holds: the entries that the driver had made available and no
-- device had taken by the snapshot are taken for consumed.
pub restored_has_none :
    (q : QueueState) (vq : Virtqueue) (s : Store)
    → q.ready ≡ true
    → q.avail_addr ≢ 0
    → Queue.has_available (restore_queue q vq s) s ≡ false
unfolding restore_queue Queue.configure Queue.set_ready
restored_has_none q vq s h a = rw h (
    synced_has_none (Queue.set_ready (Queue.configure vq q.desc_addr q.avail_addr q.used_addr) true)
      s a)

restored-Match :
    (q : QueueState) (vq : Virtqueue) (s : Store)
    → q.size ≤ q.max_size
    → vq.size ≡ q.max_size
    → vq.ready ≡ false
    → Match q (restore_queue q vq s)
unfolding restore_queue Queue.configure Queue.set_ready Queue.sync_avail_from_guest
restored-Match q vq s w m r = ground arith

restored-Paired :
    (mem_is_null : Bool) (mem_size : ℕ) (qss : List QueueState) (vqs : List Virtqueue) (s : Store)
    → Paired qss vqs
    → Paired qss (
        restore_queues qss
          (map (λ n. Queue.new n mem_is_null mem_size) (map (λ q. q.max_size) qss))
          s)
unfolding restore_queues Queue.new
restored-Paired b m [] [] s h = tt
restored-Paired b m [] (vq ∷ vqs) s h = absurd h
restored-Paired b m (q ∷ qss) [] s h = absurd h
restored-Paired b m (q ∷ qss) (vq ∷ vqs) s h = (
  restored-Match q (Queue.new q.max_size b m) s h.0.within refl refl,
  restored-Paired b m qss vqs s h.1,
)

-- What restore_state takes from the snapshot, and what of the transport it keeps.
pub record IsRestored {D : Type 0} (u : MmioTransport D) (state : MmioTransportState) (s : Store)
    (w : MmioTransport D) : Type 0 where
  pub status : w.device_status ≡ state.device_status
  pub interrupts : w.interrupt_status ≡ state.interrupt_status
  pub features : w.driver_features ≡ state.driver_features
  pub selected : w.queue_sel ≡ state.queue_sel
  pub same_queues : w.queues ≡ state.queues
  pub generation : w.config_generation ≡ state.config_generation
  pub synced : w.virtqueues ≡ restore_queues state.queues u.virtqueues s

module _ {D : Type 0} (dev : VirtioDevice D) where
  reactivate-IsRestored :
      (u t : MmioTransport D) (state : MmioTransportState) (s : Store) (was_activated : Bool)
      → IsRestored u state s t
      → IsRestored u state s (reactivate dev t was_activated)
  reactivate-IsRestored u t state s was_activated h = ground arith

  finish_restore-IsRestored :
      (u : MmioTransport D) (state : MmioTransportState) (s : Store) (r : D × Bool)
      (w : MmioTransport D)
      → finish_restore dev u state s r ≡ (w, true)
      → IsRestored u state s w
  finish_restore-IsRestored u state s (d, false) w e = absurd cc
  finish_restore-IsRestored u state s (d, true) w e =
      subst (IsRestored u state s) (ap (λ p. p.0) e) (
        reactivate-IsRestored u
          (record (assign_state dev u state d) {
            virtqueues = restore_queues state.queues u.virtqueues s;
          })
          state s state.activated
          (record {
            status = refl;
            interrupts = refl;
            features = refl;
            selected = refl;
            same_queues = refl;
            generation = refl;
            synced = refl;
          }))

  restore_state-IsRestored :
      (t u w : MmioTransport D) (s : Store)
      → restore_state dev u (snapshot_state dev t) s ≡ (w, true)
      → IsRestored u (snapshot_state dev t) s w
  unfolding restore_state
  restore_state-IsRestored t u w s e =
      finish_restore-IsRestored u (snapshot_state dev t) s
        (dev.restore_state u.device (snapshot_state dev t).device_state) w e

  -- If the queue states and the virtqueues of a transport are paired (as many, and each pair has a
  -- configured size of at most the maximum, that maximum as the virtqueue's own size, and the same
  -- ready flag), then a restore of its snapshot that succeeds, on a new transport of a device with
  -- the same queue sizes, gives a paired transport.
  pub restore_state-IsPaired :
      (t : MmioTransport D) (d : D) (irq : ℕ) (mem_is_null : Bool) (mem_size : ℕ) (s : Store)
      (w : MmioTransport D)
      → IsPaired dev t
      → map (λ q. q.max_size) t.queues ≡ dev.queue_max_sizes d
      → restore_state dev (new_with_mem dev d irq mem_is_null mem_size) (snapshot_state dev t) s
        ≡ (w, true)
      → IsPaired dev w
  unfolding snapshot_state new_with_mem
  restore_state-IsPaired t d irq b m s w h sizes e =
      let r = restore_state-IsRestored t (new_with_mem dev d irq b m) w s e in
      rw (r.same_queues, r.synced, sym sizes) (restored-Paired b m t.queues t.virtqueues s h)

  -- After a restore that succeeds of one transport's snapshot on any transport, every register but
  -- DEVICE_ID, DEVICE_FEATURES and INTERRUPT_STATUS, which the device, the feature selector and the
  -- poll thread have a part in, reads as on the transport of the snapshot.
  pub read_register-restore_state :
      (t u w : MmioTransport D) (s : Store) (r : Register)
      → restore_state dev u (snapshot_state dev t) s ≡ (w, true)
      → r ≢ Register.device_id
      → r ≢ Register.device_features
      → r ≢ Register.interrupt_status
      → read_register dev w r ≡ read_register dev t r
  unfolding snapshot_state read_register
  read_register-restore_state t u w s Register.device_id e ni nf nn = absurd (ni refl)
  read_register-restore_state t u w s Register.device_features e ni nf nn = absurd (nf refl)
  read_register-restore_state t u w s Register.interrupt_status e ni nf nn = absurd (nn refl)
  read_register-restore_state t u w s Register.status e ni nf nn =
      (restore_state-IsRestored t u w s e).status
  read_register-restore_state t u w s Register.config_generation e ni nf nn =
      (restore_state-IsRestored t u w s e).generation
  read_register-restore_state t u w s Register.queue_num_max e ni nf nn =
      let h = restore_state-IsRestored t u w s e in rw (h.same_queues, h.selected)
  read_register-restore_state t u w s Register.queue_ready e ni nf nn =
      let h = restore_state-IsRestored t u w s e in rw (h.same_queues, h.selected)
  read_register-restore_state t u w s _ e ni nf nn = refl
