-- ===== src/Virtio/Balloon.antt =====
-- virtio/balloon.rs: VirtioBalloon, the device by which the guest gives pages back. `release` is
-- madvise(MADV_DONTNEED) on memory from an offset on; `to_json` and `from_json` are serde's.
pub mod Pages
pub mod Config
mod Tests
use clone.Prelude.{
  ℕ, zero, suc, ◌+◌, ◌-◌, ◌*◌, ◌/◌, ◌%◌, ◌^◌, Option, none, some, List, [], ◌∷◌, ◌++◌, Bool, true,
  false, ltb, leb, ◌==◌, if◌then◌else◌, length, min, take, drop, to_le, from_le, bit_or, bit_and,
  replicate,
}
use clone.Memory.Store.{Store}
use clone.Virtio.Queue.{Descriptor, DescriptorChain, Virtqueue, read_descriptor_data}
use clone.Virtio.Device.{DeviceType, VirtioDevice}

-- The shared atomics are fields.
pub record VirtioBalloon : Type 0 where
  pub num_pages : ℕ
  pub actual : ℕ
  pub avail_features : ℕ
  pub acked_features : ℕ
  pub guest_mem_size : ℕ
  pub activated : Bool
  pub config_interrupt_pending : Bool

abbrev pub balloon_page_size : ℕ
balloon_page_size = 4096

abbrev pub queue_max_size : ℕ
queue_max_size = 128

abbrev pub mmio_hole_start : ℕ
mmio_hole_start = 0xC000_0000

abbrev pub mmio_hole_end : ℕ
mmio_hole_end = 0x1_0000_0000

abbrev pub new_balloon : ℕ → VirtioBalloon
new_balloon guest_mem_size = record {
  num_pages = 0;
  actual = 0;
  avail_features = 2 ^ 2 + 2 ^ 32;
  acked_features = 0;
  guest_mem_size = guest_mem_size;
  activated = false;
  config_interrupt_pending = false;
}

unfoldable pub update_target : VirtioBalloon → ℕ → VirtioBalloon
update_target d num_pages =
    if d.num_pages == num_pages
    then d
    else record d { num_pages = num_pages; config_interrupt_pending = true }

-- Where a page frame is in the host's memory; `none` is out of range, and is skipped.
unfoldable pub host_page : VirtioBalloon → ℕ → Option ℕ
host_page d pfn =
    let guest_addr = pfn * balloon_page_size in
    if ltb d.guest_mem_size (guest_addr + balloon_page_size)
    then none
    else some (
        if leb mmio_hole_end guest_addr
        then mmio_hole_start + (guest_addr - mmio_hole_end)
        else guest_addr)

-- The memory after the pages are released, and their number.
unfoldable pub release_pages : (Store → ℕ → ℕ → Store) → VirtioBalloon → Store → List ℕ → Store × ℕ
release_pages release d s [] = (s, 0)
release_pages release d s (pfn ∷ pfns) = elim (host_page d pfn) [
  | none ↦ release_pages release d s pfns
  | some offset ↦
      let (s', n) = release_pages release d (release s offset balloon_page_size) pfns in (s', n + 1)
]

unfoldable pub process_inflate :
    (Store → ℕ → ℕ → Store) → VirtioBalloon → Store → List ℕ → VirtioBalloon × Store
unfolding release_pages
process_inflate release d s pfns =
    let (s', inflated) = release_pages release d s pfns in
    (record d { actual = min (d.actual + inflated % 2 ^ 32) (2 ^ 32 - 1) }, s')

unfoldable pub process_deflate : VirtioBalloon → List ℕ → VirtioBalloon
process_deflate d pfns = record d { actual = d.actual - length pfns % 2 ^ 32 }

abbrev pub config_bytes : VirtioBalloon → List ℕ
config_bytes d = to_le 4 d.num_pages ++ to_le 4 d.actual

-- What is read lies over the buffer's start.
unfoldable pub read_config : VirtioBalloon → ℕ → List ℕ → List ℕ
read_config d offset buffer =
    let bytes = take (length buffer) (drop offset (config_bytes d)) in
    if ltb offset 8 then bytes ++ drop (length bytes) buffer else buffer

-- The bytes with a stretch of them replaced, as far as they go.
abbrev pub overlaid : List ℕ → ℕ → List ℕ → List ℕ
overlaid bytes offset new =
    take offset bytes ++ take (length bytes - offset) new ++ drop (offset + length new) bytes

unfoldable pub write_config : VirtioBalloon → ℕ → List ℕ → VirtioBalloon
write_config d offset new =
    if leb 8 offset
    then d
    else (let bytes = overlaid (config_bytes d) offset new in
        record d { num_pages = from_le (take 4 bytes); actual = from_le (drop 4 bytes) })

-- The numbers of 4 bytes in the data of a descriptor; a rest of less than 4 bytes is left.
abbrev pub pfns_of : List ℕ → List ℕ
pfns_of (a ∷ b ∷ c ∷ d ∷ bytes) = from_le (a ∷ b ∷ c ∷ d ∷ []) ∷ pfns_of bytes
pfns_of [] = []
pfns_of (a ∷ []) = []
pfns_of (a ∷ b ∷ []) = []
pfns_of (a ∷ b ∷ c ∷ []) = []

-- The pages that the readable descriptors of a chain name.
unfoldable pub chain_pfns : Virtqueue → Store → List Descriptor → List ℕ
chain_pfns q s [] = []
chain_pfns q s (desc ∷ descs) =
    let rest = chain_pfns q s descs in
    if desc.flags / 2 % 2 == 1
    then rest
    else elim (read_descriptor_data q s desc) [ none ↦ rest | some data' ↦ pfns_of data' ++ rest ]

-- Queue 0 inflates, queue 1 deflates. No byte is written to a descriptor.
unfoldable pub process_descriptor_chain :
    (Store → ℕ → ℕ → Store)
    → VirtioBalloon
    → Store
    → ℕ
    → DescriptorChain
    → Virtqueue
    → VirtioBalloon × Store
unfolding chain_pfns process_inflate process_deflate
process_descriptor_chain release d s queue_index chain q =
    let pfns = chain_pfns q s chain.descriptors in
    if length pfns == 0
    then (d, s)
    else if queue_index == 0
    then process_inflate release d s pfns
    else if queue_index == 1
    then (process_deflate d pfns, s)
    else (d, s)

unfoldable pub reset : VirtioBalloon → VirtioBalloon
reset d = record d {
  num_pages = 0;
  actual = 0;
  acked_features = 0;
  activated = false;
  config_interrupt_pending = false;
}

unfoldable pub features : VirtioBalloon → ℕ → ℕ
features d page =
    if page == 0
    then d.avail_features % 2 ^ 32
    else if page == 1
    then d.avail_features / 2 ^ 32 % 2 ^ 32
    else 0

unfoldable pub ack_features : VirtioBalloon → ℕ → ℕ → VirtioBalloon
ack_features d page value =
    if page == 0
    then record d { acked_features = bit_or d.acked_features (bit_and d.avail_features value) }
    else if page == 1
    then record d {
      acked_features = bit_or d.acked_features (bit_and d.avail_features (value * 2 ^ 32));
    }
    else d

-- What the JSON of a snapshot has, where it has it.
pub record Saved : Type 0 where
  pub saved_num_pages : Option ℕ
  pub saved_actual : Option ℕ
  pub saved_features : Option ℕ

abbrev pub or_kept : Option ℕ → ℕ → ℕ
or_kept none kept = kept
or_kept (some v) kept = v

abbrev pub saved_of : VirtioBalloon → Saved
saved_of d = record {
  saved_num_pages = some d.num_pages;
  saved_actual = some d.actual;
  saved_features = some d.acked_features;
}

-- Numbers are cast to 32 bits.
abbrev pub restored_from : VirtioBalloon → Saved → VirtioBalloon
restored_from d v = record d {
  num_pages = or_kept v.saved_num_pages d.num_pages % 2 ^ 32;
  actual = or_kept v.saved_actual d.actual % 2 ^ 32;
  acked_features = or_kept v.saved_features d.acked_features;
}

module _ (release : Store → ℕ → ℕ → Store) (to_json : Saved → List ℕ)
    (from_json : List ℕ → Option Saved) where
  -- An empty snapshot is none; one that is no JSON is an error.
  unfoldable pub restore_state : VirtioBalloon → List ℕ → VirtioBalloon × Bool
  restore_state d [] = (d, true)
  restore_state d (b ∷ bytes) = elim (from_json (b ∷ bytes)) [
    | none ↦ (d, false)
    | some v ↦ (restored_from d v, true)
  ]

  -- The device, for the transport.
  unfoldable pub balloon : VirtioDevice VirtioBalloon
  unfolding process_descriptor_chain read_config write_config features ack_features reset
      restore_state
  balloon = record {
    device_type = λ d. DeviceType.balloon;
    queue_max_sizes = λ d. queue_max_size ∷ queue_max_size ∷ [];
    features = features;
    ack_features = ack_features;
    read_config = read_config;
    write_config = write_config;
    activate = λ d. (record d { activated = true }, true);
    process_queue = λ d s i. (d, s);
    process_descriptor_chain = λ d s i chain q.
        let (d', s') = process_descriptor_chain release d s i chain q in
        record { device = d'; mem = s'; written = 0 };
    transport_processes_queue = λ d i. true;
    prepare_activate = λ d queues null size. d;
    set_memory_hole = λ d hole_start hole_end. d;
    reset = reset;
    snapshot_state = λ d. to_json (saved_of d);
    restore_state = restore_state;
  }
