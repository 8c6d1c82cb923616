-- ===== src/Lib.antt =====
-- This is a model of the core of the VMM "Clone": how a guest reaches memory, its devices and its
-- console, what the memory balloon does to it, and how its disk images are laid out, read and
-- written. Paths are from the repository's root.
--
-- Parts, and how they interact:
--   Memory.Guest    src/memory/mod.rs: GuestMem. Guest addresses become offsets into one host
--                   allocation, around the hole that a large VM leaves for MMIO. `Memory.Store` is the
--                   memory behind the host pointer, a function from offsets to bytes.
--   Memory.Paging   src/memory/mod.rs: setup_page_tables and setup_gdt, writes to guest memory.
--   Memory.Balloon  src/memory/balloon.rs: BalloonPolicy, which turns reports of activity into
--                   inflations and deflations. Times are nanoseconds, and the clock's reading is an
--                   argument of each report.
--   Virtio.Queue    src/virtio/queue.rs: Virtqueue. pop_avail takes descriptor chains off the ring
--                   that the driver fills, and push_used returns them; both read and write the store.
--   Virtio.Device   src/virtio/mod.rs: the constants and the trait VirtioDevice, here a record of
--                   operations on a device's state. The transport and the bus take it as a parameter.
--   Virtio.Mmio     src/virtio/mmio.rs: MmioTransport. `Registers` names the registers, `Mmio` has the
--                   reads, `Mmio/Write` the writes and the status state machine, `Mmio/Drain` the loop
--                   that serves every available chain of a queue (QUEUE_NOTIFY is not an arm of
--                   write_register, but of `dispatch` in `Mmio/Write`), and `Mmio/Snapshot` the snapshot of
--                   a transport and its restore.
--   Virtio.Bus      src/virtio/mmio.rs: MmioBus, which routes an address to a device's transport and
--                   reports the interrupt line to raise.
--   Virtio.Balloon  src/virtio/balloon.rs: VirtioBalloon, a device, which releases the pages that the guest
--                   gives back. madvise and JSON are parameters.
--   Storage.File    what qcow2.rs uses of std::fs::File: bytes at offsets, and a length. A system call
--                   of it does not fail, but for a read past the end.
--   Storage.Qcow2   src/storage/qcow2.rs: `Header` reads and writes the header, `Layout` is
--                   Qcow2File::create, up to where it opens the image again, and `Image` is an open
--                   Qcow2File. Of the code, below `Image`: the cache of L2 tables (`Image` itself),
--                   `Refcount` with alloc_cluster, `Cluster` with the two-level tables, `Io` with
--                   read_at and write_at, `Flush`, `Open`, and `Backing`, the backing files. Of the
--                   proofs: `Sound` says what a sound image is, by the owner of each byte of the
--                   file; `Same`, `Caching` and `Ensure` are about the cache, `Grow`, `Alloc` and
--                   `Counted` about allocation, `Put` to `SetL2` about entries; `View` and `Disk`
--                   give the disk that the guest sees, `Contract` what a disk promises, and the
--                   others are about reads and writes against it.
--   Storage.Reply   the results of the image's operations: a failure keeps the state at that point.
--   Vmm.Serial      src/vmm/serial.rs: the 16550A port. What is written to stdout and to the console
--                   socket is kept in the state. `Snapshot` has snapshot_state and restore_state, by the
--                   keys of the JSON object, and `Bytes` says which values stay bytes.
--   Vmm.Json        what the port uses of the serde_json crate: operations, and their laws.
--
-- Conventions. The integers of the source are natural numbers, and its additions wrap at their
-- width (`add64`, `% 2 ^ 16`), as in a release build. An error, and an `Option` that is None, is
-- `none`. A panic is a value (`Exec`, `Outcome`): the only one reached is the remainder by a queue
-- size of 0. In an image a failure is a `Fault`: an error, a panic, or want of the model's fuel. A
-- HashMap is an association list in the order of insertion; the code's results do not depend on
-- that order but for the victim among tables of equal last access. The logging is left out. A
-- vhost thread's atomic is a field that the transport reads and clears.
--
-- Fuel. The walk along a descriptor chain has fuel size + 1: the code itself gives up after `size`
-- descriptors. The loop over a queue's chains has its fuel as an argument, and is `exhausted`
-- without: it can run for as long as the driver makes entries available, and while avail.idx
-- stands still the number of available entries and one more is enough. The loops of an image's
-- read_at and write_at have the length as fuel: each round takes at least a byte.
--
-- Not modelled: KVM and vCPUs, threads, sockets and processes, the other devices behind the trait,
-- the opening of a backing file by its path (a parameter), PCI and VFIO, boot, networking,
-- migration, the control plane, the controller and the guest's programs. Floats: the percentage of
-- available memory enters as the outcome of its test.
pub mod Prelude
pub mod Memory
pub mod Virtio
pub mod Storage
pub mod Vmm
