-- ===== src/Virtio/Mmio.antt =====
-- virtio/mmio.rs: MmioTransport, the registers of one virtio device. `Write` has the guest's writes
-- and `Drain` the loop over a queue's descriptor chains.
pub mod Registers
pub mod Write
pub mod Inv
pub mod Drain
pub mod Whole
pub mod Driver
pub mod Frozen
pub mod Snapshot
pub mod Tests
use clone.Prelude.{
  ℕ, ◌+◌, ◌-◌, ◌*◌, ◌/◌, ◌%◌, ◌^◌, Option, none, some, List, [], ◌∷◌, Bool, true, false, not, ltb,
  leb, ◌==◌, if◌then◌else◌, length, map, get_elem?, set, to_le, replicate, bit_or, ◌&&◌,
}
use clone.Virtio.Queue
use clone.Virtio.Queue.{Virtqueue}
use clone.Virtio.Device.{DeviceType, type_id, QueueInfo, VirtioDevice}
use Registers.{Register, register}

pub record QueueState : Type 0 where
  pub max_size : ℕ
  pub size : ℕ
  pub ready : Bool
  pub desc_addr : ℕ
  pub avail_addr : ℕ
  pub used_addr : ℕ

-- `mem_is_null` is the test of the pointer `guest_mem`. `vhost_interrupt` is the value of the
-- atomic that the transport shares with the vhost poll thread.
pub record MmioTransport (D : Type 0) : Type 0 where
  pub device : D
  pub irq : ℕ
  pub device_status : ℕ
  pub interrupt_status : ℕ
  pub device_features_sel : ℕ
  pub driver_features_sel : ℕ
  pub driver_features : ℕ × ℕ
  pub queue_sel : ℕ
  pub queues : List QueueState
  pub virtqueues : List Virtqueue
  pub activated : Bool
  pub config_generation : ℕ
  pub mem_is_null : Bool
  pub guest_mem_size : ℕ
  pub vhost_interrupt : ℕ

-- Bit `k` of a register: `x & (1 << k) != 0`, and `x | (1 << k)`.
abbrev pub bit : ℕ → ℕ → Bool
bit k x = x / 2 ^ k % 2 == 1

abbrev pub set_bit : ℕ → ℕ → ℕ
set_bit k x = if bit k x then x else x + 2 ^ k

-- The queue state that a device of maximum size `max_size` starts with, and is reset to.
abbrev pub fresh_queue : ℕ → QueueState
fresh_queue max_size = record {
  max_size = max_size;
  size = max_size;
  ready = false;
  desc_addr = 0;
  avail_addr = 0;
  used_addr = 0;
}

abbrev pub fresh_virtqueue : Bool → ℕ → ℕ → ℕ → ℕ → Virtqueue
fresh_virtqueue mem_is_null guest_mem_size hole_start hole_end max_size =
    let q = Queue.new max_size mem_is_null guest_mem_size in
    if ltb 0 hole_start then Queue.set_hole q hole_start hole_end else q

abbrev pub queue_info : QueueState → QueueInfo
queue_info q = record {
  size = q.size;
  desc_addr = q.desc_addr;
  avail_addr = q.avail_addr;
  used_addr = q.used_addr;
}

abbrev pub queue_field : (QueueState → ℕ) → Option QueueState → ℕ
queue_field f none = 0
queue_field f (some q) = f q

module _ {D : Type 0} where
  unfoldable pub raise_used_ring_interrupt : MmioTransport D → MmioTransport D
  raise_used_ring_interrupt t = record t { interrupt_status = set_bit 0 t.interrupt_status }

  unfoldable pub raise_config_change_interrupt : MmioTransport D → MmioTransport D
  raise_config_change_interrupt t = record t {
    interrupt_status = set_bit 1 t.interrupt_status;
    config_generation = (t.config_generation + 1) % 2 ^ 32;
  }

  abbrev pub current_queue : MmioTransport D → Option QueueState
  current_queue t = get_elem? t.queues t.queue_sel

module _ {D : Type 0} (dev : VirtioDevice D) where
  unfoldable pub new_with_mem : D → ℕ → Bool → ℕ → MmioTransport D
  new_with_mem device irq mem_is_null guest_mem_size = record {
    device = device;
    irq = irq;
    device_status = 0;
    interrupt_status = 0;
    device_features_sel = 0;
    driver_features_sel = 0;
    driver_features = (0, 0);
    queue_sel = 0;
    queues = map fresh_queue (dev.queue_max_sizes device);
    virtqueues =
        map (λ max_size. Queue.new max_size mem_is_null guest_mem_size)
          (dev.queue_max_sizes device);
    activated = false;
    config_generation = 0;
    mem_is_null = mem_is_null;
    guest_mem_size = guest_mem_size;
    vhost_interrupt = 0;
  }

  unfoldable pub set_guest_memory_with_hole : MmioTransport D → Bool → ℕ → ℕ → ℕ → MmioTransport D
  set_guest_memory_with_hole t mem_is_null guest_mem_size hole_start hole_end =
      let device =
        if ltb 0 hole_start then dev.set_memory_hole t.device hole_start hole_end else t.device in
      record t {
        device = device;
        mem_is_null = mem_is_null;
        guest_mem_size = guest_mem_size;
        virtqueues =
            map (fresh_virtqueue mem_is_null guest_mem_size hole_start hole_end)
              (dev.queue_max_sizes device);
      }

  -- The value that a register reads as.
  unfoldable pub read_register : MmioTransport D → Register → ℕ
  read_register t Register.magic_value = 0x7472_6976
  read_register t Register.version = 2
  read_register t Register.device_id = type_id (dev.device_type t.device)
  read_register t Register.vendor_id = 0x004E_564D
  read_register t Register.device_features = dev.features t.device t.device_features_sel
  read_register t Register.queue_num_max = queue_field (λ q. q.max_size) (current_queue t)
  read_register t Register.queue_ready =
      queue_field (λ q. if q.ready then 1 else 0) (current_queue t)
  read_register t Register.interrupt_status = bit_or t.interrupt_status t.vhost_interrupt
  read_register t Register.status = t.device_status
  read_register t Register.shm_len_low = 0xFFFF_FFFF
  read_register t Register.shm_len_high = 0xFFFF_FFFF
  read_register t Register.shm_base_low = 0
  read_register t Register.shm_base_high = 0
  read_register t Register.config_generation = t.config_generation
  read_register t _ = 0

  -- `data` is the buffer to fill, and the result what it then holds.
  unfoldable pub read : MmioTransport D → ℕ → List ℕ → List ℕ
  unfolding read_register
  read t offset buffer =
      if leb 0x100 offset
      then dev.read_config t.device (offset - 0x100) buffer
      else if length buffer == 4
      then to_le 4 (read_register t (register offset))
      else replicate (length buffer) 0
