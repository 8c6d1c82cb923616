-- ===== src/Virtio/Bus/Tests.antt =====
-- Five devices on a bus: their lines are 5, 6, 7, 9 and 10.
use clone.Prelude.{
  ℕ, ◌+◌, ◌≡◌, ◌≢◌, refl, none, some, [], ◌∷◌, true, false, inr, arith, get_elem?, map,
}
use clone.Virtio.Mmio.{new_with_mem}
use clone.Virtio.Mmio.Tests.{counter}
use clone.Virtio.Mmio.Registers.{Register, register as decode}
use clone.Virtio.Mmio.Write.{write, write_register}
use clone.Virtio.Bus.{MmioBus, irq_of, find_device, register, handle_write}
use clone.Virtio.Bus.Routing.{irq_of_distinct, find_device-register, handle_write-others}

five_lines : map irq_of (0 ∷ 1 ∷ 2 ∷ 3 ∷ 4 ∷ []) ≡ 5 ∷ 6 ∷ 7 ∷ 9 ∷ 10 ∷ []
five_lines = refl

abbrev empty_bus : MmioBus ℕ
empty_bus = record { devices = []; mem_is_null = false; guest_mem_size = 256 }

abbrev one : MmioBus ℕ
one = record empty_bus { devices = new_with_mem counter 0 5 false 256 ∷ [] }

irq_of_distinct_example : (irq_of 2 ≢ irq_of 3) × (irq_of 2 ≢ 8) × (irq_of 3 ≢ 8)
irq_of_distinct_example = irq_of_distinct 2 3 (omega arith)

find_device-register_example :
    find_device (register counter one 0).0 (0xd000_0200 + 0x70)
    ≡ some (new_with_mem counter 0 6 false 256, 0x70)
unfolding register
find_device-register_example = find_device-register counter one 0 0x70 (omega arith)

abbrev two : MmioBus ℕ
two = record one {
  devices = new_with_mem counter 0 5 false 256 ∷ new_with_mem counter 0 6 false 256 ∷ [];
}

abbrev two_after : MmioBus ℕ
two_after = record two {
  devices =
      new_with_mem counter 0 5 false 256
      ∷ write_register counter (new_with_mem counter 0 6 false 256) Register.status 1
      ∷ [];
}

-- The second device's STATUS is written; the first keeps its state.
handle_write-others_example : get_elem? two_after.devices 0 ≡ get_elem? two.devices 0
unfolding handle_write find_device write decode write_register new_with_mem
handle_write-others_example =
    handle_write-others counter 1 two two_after (λ j. 0) (λ j. 0) 0xd000_0270 (1 ∷ 0 ∷ 0 ∷ 0 ∷ []) 0
      true none refl (inr (omega arith))
