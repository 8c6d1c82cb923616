-- ===== src/Virtio/Mmio/Tests.antt =====
-- A driver brings up a device of one queue, over the memory of the virtqueue's tests.
use clone.Prelude.{
  ℕ, ◌+◌, ◌≡◌, ◌≢◌, refl, ◌∙◌, Option, some, [], ◌∷◌, true, false, inl, arith, Exec, ret, panic,
  get_elem?,
}
use clone.Memory.Store.{Store, store}
use clone.Virtio.Queue
use clone.Virtio.Queue.{Virtqueue, DescriptorChain}
use clone.Virtio.Queue.Used.{IsPlaced, push_used-others, pushed}
use clone.Virtio.Queue.Tests.{queue, memory}
use clone.Virtio.Device.{DeviceType, VirtioDevice}
use clone.Virtio.Mmio.{
  MmioTransport, QueueState, fresh_queue, new_with_mem, read_register, raise_used_ring_interrupt,
}
use clone.Virtio.Mmio.Registers.{Register, register}
use clone.Virtio.Mmio.Drain.{finished, Served, pushed_mem, drain, serve, process_queue_descriptors}
use clone.Virtio.Mmio.Drain.Ends.{IsStill, at_idx, drain_ends}
use clone.Virtio.Mmio.Write.{write, write_register, handle_status_write}
use clone.Virtio.Mmio.Inv.{IsPaired, new-IsPaired}
use clone.Virtio.Mmio.Whole.{write-IsPaired}
use clone.Virtio.Mmio.Frozen.{driver_writes, LeavesStatus, features_frozen}
use clone.Virtio.Mmio.Driver.{active_once, reset_reads_fresh, negotiated_size_unused}

-- A device whose state counts the chains that it has served; each takes 4 bytes.
abbrev pub counter : VirtioDevice ℕ
counter = record {
  device_type = λ d. DeviceType.block;
  queue_max_sizes = λ d. 8 ∷ [];
  features = λ d page. page;
  ack_features = λ d page value. d;
  read_config = λ d offset buffer. buffer;
  write_config = λ d offset bytes. d;
  activate = λ d. (d, true);
  process_queue = λ d s i. (d, s);
  process_descriptor_chain = λ d s i chain vq. record { device = d + 1; mem = s; written = 4 };
  transport_processes_queue = λ d i. true;
  prepare_activate = λ d queues mem_is_null mem_size. d;
  set_memory_hole = λ d hole_start hole_end. d;
  reset = λ d. 0;
  snapshot_state = λ d. d ∷ [];
  restore_state = λ d saved. (d, true);
}

abbrev pub fresh : MmioTransport ℕ
fresh = new_with_mem counter 0 5 false 256

-- STATUS 11 is ACKNOWLEDGE, DRIVER and FEATURES_OK.
abbrev pub agreed : MmioTransport ℕ
agreed = record fresh { device_status = 11 }

-- With a chain available, and after that is served.
abbrev armed : MmioTransport ℕ
armed = record agreed { virtqueues = queue ∷ [] }

abbrev running : MmioTransport ℕ
running = record armed { device = 1; virtqueues = Queue.advance queue ∷ []; interrupt_status = 1 }

-- Three writes: other features, a chain to serve, and other features again.
features_frozen_example :
    (running.driver_features ≡ agreed.driver_features)
    × (running.device_status ≡ agreed.device_status)
unfolding driver_writes LeavesStatus write register process_queue_descriptors drain serve
    Queue.pop_avail Queue.push_used Queue.read_uint Queue.guest_read Queue.slice_offset
    Queue.gpa_to_offset Queue.walk Queue.read_descriptor Queue.write_uint Queue.needs_notification
    Queue.guest_write store raise_used_ring_interrupt new_with_mem
features_frozen_example =
    features_frozen counter 2 armed
      ((λ j. 0, 0x020, 3 ∷ 0 ∷ 0 ∷ 0 ∷ [])
        ∷ (memory, 0x050, 0 ∷ 0 ∷ 0 ∷ 0 ∷ [])
        ∷ (λ j. 0, 0x020, 5 ∷ 0 ∷ 0 ∷ 0 ∷ [])
        ∷ [])
      running refl (λ e. omega arith, (λ e. omega arith, (λ e. omega arith, tt))) refl

active_once_example :
    let t = write_register counter (record agreed { activated = true }) Register.status 15 in
    (t.device ≡ agreed.device) × (t.activated ≡ true)
active_once_example =
    active_once counter (record agreed { activated = true }) Register.status 15 refl
      (λ e. omega arith) (λ e. cc)

reset_reads_fresh_example :
    read_register counter (handle_status_write counter agreed 0) Register.queue_num_max
    ≡ read_register counter (new_with_mem counter 0 5 false 256) Register.queue_num_max
unfolding new_with_mem
reset_reads_fresh_example =
    reset_reads_fresh counter agreed Register.queue_num_max refl (λ e. cc) (λ e. cc)

write-IsPaired_example : IsPaired counter (write_register counter fresh Register.queue_num 4)
unfolding write register
write-IsPaired_example =
    write-IsPaired counter 1 fresh (λ j. 0) 0x038 (4 ∷ 0 ∷ 0 ∷ 0 ∷ [])
      (write_register counter fresh Register.queue_num 4) (λ j. 0)
      (new-IsPaired counter 0 5 false 256) refl

negotiated_size_unused_example :
    let t' =
      write_register counter
        (write_register counter fresh Register.queue_num 4)
        Register.queue_ready
        1 in
    (qs' : QueueState) × (vq : Virtqueue) × (get_elem? t'.queues 0 ≡ some qs')
    × (get_elem? t'.virtqueues 0 ≡ some vq)
    × (qs'.size ≡ 4)
    × (vq.ready ≡ true)
    × (vq.size ≢ qs'.size)
unfolding new_with_mem
negotiated_size_unused_example =
    negotiated_size_unused counter fresh (fresh_queue 8) 4 (new-IsPaired counter 0 5 false 256) refl
      (omega arith) (omega arith)

-- avail.idx is 1.
abbrev OneAvailable : Store → Type 0
OneAvailable s = (s 34 ≡ 1) × (s 35 ≡ 0)

completion_keeps :
    (s : Store) (head written l : ℕ) (r : Exec (Option (Unit {0}) × Store))
    → OneAvailable s
    → Queue.push_used (at_idx queue l) s head written ≡ r
    → OneAvailable (pushed_mem s r)
completion_keeps s head written l panic p e = p
completion_keeps s head written l (ret (o, t)) p e = (
  push_used-others {q = at_idx queue l} s head written 34 {t = t} {o = o} placed (inl (omega arith))
        (inl (omega arith)) e
      ∙ p.0,
  push_used-others {q = at_idx queue l} s head written 35 {t = t} {o = o} placed (inl (omega arith))
        (inl (omega arith)) e
      ∙ p.1,
)
  where
    placed : IsPlaced (at_idx queue l)
    placed = record {
      is_ready = refl;
      present = refl;
      sized = omega arith;
      below = inl refl;
      inside = omega arith;
      small = omega arith;
    }

one_IsStill : IsStill counter 0 queue 1 OneAvailable
unfolding Queue.read_uint Queue.guest_read Queue.slice_offset Queue.gpa_to_offset
one_IsStill = record {
  idx_bound = omega arith;
  reads = λ s p. ground arith;
  device_keeps = λ d s c l p. p;
  used_keeps = λ s head written l p. completion_keeps s head written l _ p refl;
}

drain_ends_example :
    (st : Served ℕ) × (drain counter 0 2
        (record { device = 0; mem = memory; vq = at_idx queue 0; raised = false })
      ≡ finished st)
drain_ends_example =
    drain_ends counter 0 queue 1 OneAvailable one_IsStill 2 0 0 memory false (omega arith)
      (omega arith) (omega arith) (refl, refl)

-- One chain served, and used.idx is 1.
one_served :
    (drain counter 0 2 (record { device = 0; mem = memory; vq = queue; raised = false }))
    ≡ finished (record {
      device = 1;
      mem = pushed (Queue.advance queue) memory 0 0 4;
      vq = Queue.advance queue;
      raised = true;
    })
unfolding drain serve pushed Queue.pop_avail Queue.push_used Queue.read_uint Queue.guest_read
    Queue.slice_offset Queue.gpa_to_offset Queue.walk Queue.read_descriptor Queue.write_uint
    Queue.needs_notification Queue.guest_write store
one_served = refl
