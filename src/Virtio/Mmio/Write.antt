-- ===== src/Virtio/Mmio/Write.antt =====
-- virtio/mmio.rs: the guest's writes to the registers, and the device status state machine.
use clone.Prelude.{
  ℕ, zero, suc, ◌+◌, ◌-◌, ◌*◌, ◌/◌, ◌%◌, ◌^◌, List, [], ◌∷◌, Bool, true, false, not, leb, ◌==◌,
  if◌then◌else◌, length, map, from_le, bit_and, ◌&&◌,
}
use clone.Memory.Store.{Store}
use clone.Virtio.Queue
use clone.Virtio.Queue.{Virtqueue}
use clone.Virtio.Device.{VirtioDevice}
use clone.Virtio.Mmio.{MmioTransport, QueueState, bit, set_bit, fresh_queue, queue_info}
use clone.Virtio.Mmio.Registers.{Register, register}
use clone.Virtio.Mmio.Drain.{Outcome, finished, process_queue_descriptors}

-- `if let Some(q) = self.current_queue_mut()`, with the change `f` of the queue.
abbrev pub set_queue : List QueueState → ℕ → (QueueState → QueueState) → List QueueState
set_queue [] sel f = []
set_queue (q ∷ queues) zero f = f q ∷ queues
set_queue (q ∷ queues) (suc sel) f = q ∷ set_queue queues sel f

-- The low and the high half of a 64-bit address.
abbrev pub with_low : ℕ → ℕ → ℕ
with_low addr val = addr / 2 ^ 32 * 2 ^ 32 + val

abbrev pub with_high : ℕ → ℕ → ℕ
with_high addr val = addr % 2 ^ 32 + val * 2 ^ 32

-- `x & !val` on 32 bits.
abbrev pub clear_bits : ℕ → ℕ → ℕ
clear_bits x val = bit_and x (2 ^ 32 - 1 - val)

abbrev pub set_page : ℕ × ℕ → ℕ → ℕ → ℕ × ℕ
set_page (low, high) page val = if page % 2 == 0 then (val, high) else (low, val)

-- Sync the virtqueue with the queue state.
abbrev pub sync_ready : Virtqueue → QueueState → Bool → Virtqueue
sync_ready vq qs enable =
    if enable
    then Queue.set_ready (Queue.configure vq qs.desc_addr qs.avail_addr qs.used_addr) true
    else Queue.set_ready vq false

-- Where both lists have an entry `sel`, its virtqueue is synced.
abbrev pub sync_virtqueues : List QueueState → List Virtqueue → ℕ → Bool → List Virtqueue
sync_virtqueues [] vqs sel enable = vqs
sync_virtqueues (qs ∷ qss) [] sel enable = []
sync_virtqueues (qs ∷ qss) (vq ∷ vqs) zero enable = sync_ready vq qs enable ∷ vqs
sync_virtqueues (qs ∷ qss) (vq ∷ vqs) (suc sel) enable = vq ∷ sync_virtqueues qss vqs sel enable

module _ {D : Type 0} (dev : VirtioDevice D) where
  unfoldable pub reset_transport : MmioTransport D → MmioTransport D
  reset_transport t = record t {
    device = dev.reset t.device;
    device_status = 0;
    interrupt_status = 0;
    activated = false;
    device_features_sel = 0;
    driver_features_sel = 0;
    driver_features = (0, 0);
    queue_sel = 0;
    queues = map (λ q. fresh_queue q.max_size) t.queues;
    virtqueues = map Queue.reset t.virtqueues;
  }

  -- prepare_activate, then activate: the new device and whether it succeeded.
  abbrev pub activate : MmioTransport D → D × Bool
  activate t =
      dev.activate
        (dev.prepare_activate t.device (map queue_info t.queues) t.mem_is_null t.guest_mem_size)

  -- `activated` or DEVICE_NEEDS_RESET (bit 6), by what activate returned.
  abbrev pub after_activate : MmioTransport D → ℕ → D × Bool → MmioTransport D
  after_activate t val (device, true) = record t {
    device = device;
    activated = true;
    device_status = val;
  }
  after_activate t val (device, false) = record t {
    device = device;
    device_status = set_bit 6 t.device_status;
  }

  -- DRIVER_OK is bit 2.
  unfoldable pub handle_status_write : MmioTransport D → ℕ → MmioTransport D
  unfolding reset_transport
  handle_status_write t val =
      if val == 0
      then reset_transport t
      else if bit 2 val && not (bit 2 t.device_status) && not t.activated
      then after_activate t val (activate t)
      else record t { device_status = val }

  -- DRIVER is bit 1 and FEATURES_OK bit 3.
  unfoldable pub write_driver_features : MmioTransport D → ℕ → MmioTransport D
  write_driver_features t val =
      if not (bit 3 t.device_status) && bit 1 t.device_status
      then record t {
        driver_features = set_page t.driver_features t.driver_features_sel val;
        device = dev.ack_features t.device t.driver_features_sel val;
      }
      else t

  unfoldable pub write_queue_ready : MmioTransport D → ℕ → MmioTransport D
  write_queue_ready t val =
      let enable = val == 1 in
      let queues = set_queue t.queues t.queue_sel (λ q. record q { ready = enable }) in
      record t {
        queues = queues;
        virtqueues = sync_virtqueues queues t.virtqueues t.queue_sel enable;
      }

  unfoldable pub notify : ℕ → MmioTransport D → Store → ℕ → Outcome (MmioTransport D × Store)
  unfolding process_queue_descriptors
  notify fuel t s val =
      let queue_idx = val % 2 ^ 16 in
      let (device, s') = dev.process_queue t.device s queue_idx in
      let t' = record t { device = device } in
      if dev.transport_processes_queue device queue_idx
      then process_queue_descriptors dev queue_idx fuel t' s'
      else finished (t', s')

  abbrev pub change_queue : MmioTransport D → (QueueState → QueueState) → MmioTransport D
  change_queue t f = record t { queues = set_queue t.queues t.queue_sel f }

  -- The arms of the registers but QUEUE_NOTIFY, which is left to `dispatch` below: its arm runs the
  -- device on memory.
  unfoldable pub write_register : MmioTransport D → Register → ℕ → MmioTransport D
  unfolding handle_status_write write_driver_features write_queue_ready
  write_register t Register.device_features_sel val = record t { device_features_sel = val }
  write_register t Register.driver_features val = write_driver_features t val
  write_register t Register.driver_features_sel val = record t { driver_features_sel = val }
  write_register t Register.queue_sel val = record t { queue_sel = val }
  write_register t Register.queue_num val =
      change_queue t λ q. if leb val q.max_size then record q { size = val % 2 ^ 16 } else q
  write_register t Register.queue_ready val = write_queue_ready t val
  write_register t Register.interrupt_ack val = record t {
    interrupt_status = clear_bits t.interrupt_status val;
    vhost_interrupt = clear_bits t.vhost_interrupt val;
  }
  write_register t Register.status val = handle_status_write t val
  write_register t Register.queue_desc_low val =
      change_queue t λ q. record q { desc_addr = with_low q.desc_addr val }
  write_register t Register.queue_desc_high val =
      change_queue t λ q. record q { desc_addr = with_high q.desc_addr val }
  write_register t Register.queue_avail_low val =
      change_queue t λ q. record q { avail_addr = with_low q.avail_addr val }
  write_register t Register.queue_avail_high val =
      change_queue t λ q. record q { avail_addr = with_high q.avail_addr val }
  write_register t Register.queue_used_low val =
      change_queue t λ q. record q { used_addr = with_low q.used_addr val }
  write_register t Register.queue_used_high val =
      change_queue t λ q. record q { used_addr = with_high q.used_addr val }
  write_register t _ val = t

  abbrev pub dispatch :
      ℕ → MmioTransport D → Store → Register → ℕ → Outcome (MmioTransport D × Store)
  dispatch fuel t s Register.queue_notify val = notify fuel t s val
  dispatch fuel t s r val = finished (write_register t r val, s)

  -- The whole handler.
  unfoldable pub write :
      ℕ → MmioTransport D → Store → ℕ → List ℕ → Outcome (MmioTransport D × Store)
  unfolding notify write_register
  write fuel t s offset bytes =
      if leb 0x100 offset
      then finished (record t { device = dev.write_config t.device (offset - 0x100) bytes }, s)
      else if length bytes == 4
      then dispatch fuel t s (register offset) (from_le bytes)
      else finished (t, s)
