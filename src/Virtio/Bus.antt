-- ===== src/Virtio/Bus.antt =====
-- virtio/mmio.rs: MmioBus, which gives each device a window of addresses and an interrupt line, and
-- routes the guest's accesses. The devices of a bus are of one type `D`, which may be a sum.
pub mod Routing
mod Tests
use clone.Prelude.{
  ℕ, zero, suc, ◌+◌, ◌-◌, ◌*◌, ◌/◌, ◌%◌, ◌^◌, Option, none, some, List, [], ◌∷◌, ◌++◌, Bool, true,
  false, not, ltb, leb, ◌==◌, if◌then◌else◌, length, map, get_elem?, set, ◌&&◌,
}
use clone.Memory.Store.{Store}
use clone.Virtio.Device.{VirtioDevice, mmio_base, mmio_stride, irq_base}
use clone.Virtio.Mmio.{MmioTransport, new_with_mem, read, set_guest_memory_with_hole}
use clone.Virtio.Mmio.Drain.{Outcome, finished, panicked, exhausted}
use clone.Virtio.Mmio.Write.{write, handle_status_write}

pub record MmioBus (D : Type 0) : Type 0 where
  pub devices : List (MmioTransport D)
  pub mem_is_null : Bool
  pub guest_mem_size : ℕ

-- Of device `index`: its window, and its line, which skips 8, the clock's.
abbrev pub base_of : ℕ → ℕ
base_of index = mmio_base + index * mmio_stride

abbrev pub irq_of : ℕ → ℕ
irq_of index = let irq = irq_base + index in if leb 8 irq then irq + 1 else irq

-- The device and the offset in its window that an address names.
unfoldable pub find_device : {D : Type 0} → MmioBus D → ℕ → Option (MmioTransport D × ℕ)
find_device b addr =
    if ltb addr mmio_base
    then none
    else elim (get_elem? b.devices ((addr - mmio_base) / mmio_stride)) [
      | none ↦ none
      | some t ↦ some (t, (addr - mmio_base) % mmio_stride)
    ]

-- What a write says to the vCPU: whether an address was handled, and the line to raise.
abbrev pub edge : ℕ → ℕ → ℕ → Option ℕ
edge irq before after = if not (after == 0) && before == 0 then some irq else none

module _ {D : Type 0} (dev : VirtioDevice D) where
  unfoldable pub register : MmioBus D → D → MmioBus D × ℕ × ℕ
  register b device =
      let index = length b.devices in
      let irq = irq_of index in
      let t = new_with_mem dev device irq b.mem_is_null b.guest_mem_size in
      (record b { devices = b.devices ++ t ∷ [] }, base_of index, irq)

  unfoldable pub bus_set_guest_memory : MmioBus D → Bool → ℕ → ℕ → ℕ → MmioBus D
  bus_set_guest_memory b mem_is_null size hole_start hole_end = record b {
    mem_is_null = mem_is_null;
    guest_mem_size = size;
    devices =
        map (λ t. set_guest_memory_with_hole dev t mem_is_null size hole_start hole_end) b.devices;
  }

  unfoldable pub reset_device : MmioBus D → ℕ → MmioBus D
  reset_device b index = elim (get_elem? b.devices index) [
    | none ↦ b
    | some t ↦ record b { devices = set b.devices index (handle_status_write dev t 0) }
  ]

  unfoldable pub reset_all_devices : MmioBus D → MmioBus D
  reset_all_devices b = record b { devices = map (λ t. handle_status_write dev t 0) b.devices }

  -- The filled buffer; `none` if no device is at the address.
  unfoldable pub handle_read : MmioBus D → ℕ → List ℕ → Option (List ℕ)
  handle_read b addr buffer = elim (find_device b addr) [
    | none ↦ none
    | some (t, offset) ↦ some (read dev t offset buffer)
  ]

  abbrev pub put_device :
      MmioBus D
      → ℕ
      → MmioTransport D
      → Outcome (MmioTransport D × Store)
      → Outcome (MmioBus D × Store × Bool × Option ℕ)
  put_device b addr t panicked = panicked
  put_device b addr t exhausted = exhausted
  put_device b addr t (finished (t', s)) = finished (
    record b { devices = set b.devices ((addr - mmio_base) / mmio_stride) t' },
    s,
    true,
    edge t.irq t.interrupt_status t'.interrupt_status,
  )

  unfoldable pub handle_write :
      ℕ → MmioBus D → Store → ℕ → List ℕ → Outcome (MmioBus D × Store × Bool × Option ℕ)
  handle_write fuel b s addr bytes = elim (find_device b addr) [
    | none ↦ finished (b, s, false, none)
    | some (t, offset) ↦ put_device b addr t (write dev fuel t s offset bytes)
  ]
