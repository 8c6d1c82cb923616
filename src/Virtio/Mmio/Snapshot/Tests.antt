-- ===== src/Virtio/Mmio/Snapshot/Tests.antt =====
-- A transport with its one queue in use, restored on a new one.
use clone.Prelude.{ℕ, ◌≡◌, refl, true, false, arith}
use clone.Virtio.Queue.{has_available}
use clone.Virtio.Mmio.{MmioTransport, QueueState, read_register, new_with_mem}
use clone.Virtio.Mmio.Registers.{Register}
use clone.Virtio.Mmio.Write.{write_register}
use clone.Virtio.Mmio.Inv.{IsPaired, new-IsPaired, write_register-IsPaired}
use clone.Virtio.Mmio.Tests.{counter, fresh}
use clone.Virtio.Queue.Tests.{queue, memory}
use clone.Virtio.Mmio.Snapshot.{restore_queue, restore_state, snapshot_state}
use clone.Virtio.Mmio.Snapshot.Restored.{
  restored_has_none, restore_state-IsPaired, read_register-restore_state,
}

abbrev in_use : MmioTransport ℕ
in_use = write_register counter fresh Register.queue_ready 1

abbrev restored : MmioTransport ℕ
restored = (restore_state counter fresh (snapshot_state counter in_use) memory).0

abbrev saved_queue : QueueState
saved_queue = record {
  max_size = 4;
  size = 4;
  ready = true;
  desc_addr = 0;
  avail_addr = 64;
  used_addr = 128;
}

restored_has_none_example : has_available (restore_queue saved_queue queue memory) memory ≡ false
restored_has_none_example = restored_has_none saved_queue queue memory refl (λ e. omega arith)

restore_state-IsPaired_example : IsPaired counter restored
unfolding restore_state snapshot_state new_with_mem write_register
restore_state-IsPaired_example =
    restore_state-IsPaired counter in_use 0 5 false 256 memory restored
      (write_register-IsPaired counter fresh Register.queue_ready 1
        (new-IsPaired counter 0 5 false 256))
      refl refl

read_register-restore_state_example :
    read_register counter restored Register.queue_ready
    ≡ read_register counter in_use Register.queue_ready
unfolding restore_state
read_register-restore_state_example =
    read_register-restore_state counter in_use fresh restored memory Register.queue_ready refl
      (λ e. cc) (λ e. cc) (λ e. cc)
