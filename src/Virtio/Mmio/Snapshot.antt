-- ===== src/Virtio/Mmio/Snapshot.antt =====
-- virtio/mmio.rs, snapshot_state and restore_state of the transport.
pub mod Restored
mod Tests
use clone.Prelude.{ℕ, ◌==◌, if◌then◌else◌, List, [], ◌∷◌, Bool, true, false, not, ◌&&◌}
use clone.Memory.Store.{Store}
use clone.Virtio.Queue
use clone.Virtio.Queue.{Virtqueue}
use clone.Virtio.Device.{VirtioDevice}
use clone.Virtio.Mmio.{MmioTransport, QueueState}
use clone.Virtio.Mmio.Write.{activate}

pub record MmioTransportState : Type 0 where
  pub device_status : ℕ
  pub interrupt_status : ℕ
  pub driver_features : ℕ × ℕ
  pub queue_sel : ℕ
  pub queues : List QueueState
  pub activated : Bool
  pub config_generation : ℕ
  pub device_state : List ℕ

-- One round of the loop over the queues.
unfoldable pub restore_queue : QueueState → Virtqueue → Store → Virtqueue
restore_queue q vq s =
    if q.ready
    then Queue.sync_avail_from_guest
        (Queue.set_ready (Queue.configure vq q.desc_addr q.avail_addr q.used_addr) true) s
    else vq

-- The loop: a queue with no virtqueue is passed over.
unfoldable pub restore_queues : List QueueState → List Virtqueue → Store → List Virtqueue
unfolding restore_queue
restore_queues [] vqs s = vqs
restore_queues (q ∷ queues) [] s = []
restore_queues (q ∷ queues) (vq ∷ vqs) s = restore_queue q vq s ∷ restore_queues queues vqs s

module _ {D : Type 0} (dev : VirtioDevice D) where
  unfoldable pub snapshot_state : MmioTransport D → MmioTransportState
  snapshot_state t = record {
    device_status = t.device_status;
    interrupt_status = t.interrupt_status;
    driver_features = t.driver_features;
    queue_sel = t.queue_sel;
    queues = t.queues;
    activated = t.activated;
    config_generation = t.config_generation;
    device_state = dev.snapshot_state t.device;
  }

  -- What is assigned before the device may fail.
  abbrev pub assign_state : MmioTransport D → MmioTransportState → D → MmioTransport D
  assign_state t state device = record t {
    device = device;
    device_status = state.device_status;
    interrupt_status = state.interrupt_status;
    driver_features = state.driver_features;
    queue_sel = state.queue_sel;
    queues = state.queues;
    config_generation = state.config_generation;
  }

  -- By what activate returned; its error is only logged.
  abbrev pub after_reactivate : MmioTransport D → D × Bool → MmioTransport D
  after_reactivate t (device, true) = record t { device = device; activated = true }
  after_reactivate t (device, false) = record t { device = device }

  abbrev pub reactivate : MmioTransport D → Bool → MmioTransport D
  reactivate t was_activated =
      if was_activated && not t.activated
      then after_reactivate t (activate dev t)
      else record t { activated = was_activated }

  abbrev pub finish_restore :
      MmioTransport D → MmioTransportState → Store → D × Bool → MmioTransport D × Bool
  finish_restore t state s (device, false) = (assign_state t state device, false)
  finish_restore t state s (device, true) =
      let t' = record (assign_state t state device) {
        virtqueues = restore_queues state.queues t.virtqueues s;
      } in
      (reactivate t' state.activated, true)

  -- The flag is whether it succeeded.
  unfoldable pub restore_state :
      MmioTransport D → MmioTransportState → Store → MmioTransport D × Bool
  restore_state t state s = finish_restore t state s (dev.restore_state t.device state.device_state)
