-- ===== src/Virtio/Device.antt =====
-- virtio/mod.rs: the constants of the MMIO layout, and the trait by which the transport calls a
-- device. A device is any type `D` of states with the trait's methods; one that takes `&mut self`
-- returns the new state, and one that reaches guest memory takes the store and returns it.
use clone.Prelude.{ℕ, List, Bool}
use clone.Memory.Store.{Store}
use clone.Virtio.Queue.{DescriptorChain, Virtqueue}

abbrev pub mmio_base : ℕ
mmio_base = 0xd000_0000

abbrev pub mmio_stride : ℕ
mmio_stride = 0x200

abbrev pub irq_base : ℕ
irq_base = 5

pub data DeviceType : Type 0 where
  net block console balloon vsock fs : DeviceType

abbrev pub type_id : DeviceType → ℕ
type_id DeviceType.net = 1
type_id DeviceType.block = 2
type_id DeviceType.console = 3
type_id DeviceType.balloon = 5
type_id DeviceType.vsock = 19
type_id DeviceType.fs = 26

pub record QueueInfo : Type 0 where
  pub size : ℕ
  pub desc_addr : ℕ
  pub avail_addr : ℕ
  pub used_addr : ℕ

-- `activate` and `restore_state` say whether they succeeded; the error of `process_queue` is only logged.
pub record VirtioDevice (D : Type 0) : Type 0 where
  pub device_type : D → DeviceType
  pub queue_max_sizes : D → List ℕ
  pub features : D → ℕ → ℕ
  pub ack_features : D → ℕ → ℕ → D
  pub read_config : D → ℕ → List ℕ → List ℕ
  pub write_config : D → ℕ → List ℕ → D
  pub activate : D → D × Bool
  pub process_queue : D → Store → ℕ → D × Store
  pub process_descriptor_chain :
      D → Store → ℕ → DescriptorChain → Virtqueue → record { device : D; mem : Store; written : ℕ }
  pub transport_processes_queue : D → ℕ → Bool
  pub prepare_activate : D → List QueueInfo → Bool → ℕ → D
  pub set_memory_hole : D → ℕ → ℕ → D
  pub reset : D → D
  pub snapshot_state : D → List ℕ
  pub restore_state : D → List ℕ → D × Bool
