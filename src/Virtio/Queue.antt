-- ===== src/Virtio/Queue.antt =====
-- virtio/queue.rs: a split virtqueue in guest memory. The host pointer's target is the store that
-- each operation takes; `none` is the code's `None`. Additions of u64 and usize wrap at 2 ^ 64 as
-- in a release build, and `% size` panics at size 0.
pub mod Access
pub mod Chain
pub mod Avail
pub mod Used
pub mod Tests
use clone.Prelude.{
  ℕ, zero, suc, ◌+◌, ◌-◌, ◌*◌, ◌/◌, ◌%◌, ◌^◌, Option, none, some, List, [], ◌∷◌, Bool, true, false,
  not, ltb, leb, ◌==◌, if◌then◌else◌, length, ◌>>=◌, ◌||◌, Exec, ret, panic, to_le, from_le,
}
use clone.Memory.Store.{Store, load, store}

pub record Descriptor : Type 0 where
  pub addr : ℕ
  pub len : ℕ
  pub flags : ℕ
  pub next : ℕ

pub record DescriptorChain : Type 0 where
  pub index : ℕ
  pub descriptors : List Descriptor

-- `mem_is_null` is the test of the host pointer.
pub record Virtqueue : Type 0 where
  pub size : ℕ
  pub ready : Bool
  pub desc_table : ℕ
  pub avail_ring : ℕ
  pub used_ring : ℕ
  pub last_avail_idx : ℕ
  pub mem_is_null : Bool
  pub guest_mem_size : ℕ
  pub hole_start : ℕ
  pub hole_end : ℕ

abbrev pub desc_size : ℕ
desc_size = 16

abbrev pub avail_ring_header : ℕ
avail_ring_header = 4

abbrev pub used_elem_size : ℕ
used_elem_size = 8

abbrev pub used_ring_header : ℕ
used_ring_header = 4

abbrev pub add64 : ℕ → ℕ → ℕ
add64 a b = (a + b) % 2 ^ 64

-- VRING_DESC_F_NEXT is bit 0 of the flags, VRING_DESC_F_WRITE bit 1.
abbrev pub has_next : ℕ → Bool
has_next flags = flags % 2 == 1

abbrev pub is_writable : ℕ → Bool
is_writable flags = flags / 2 % 2 == 1

unfoldable pub new : ℕ → Bool → ℕ → Virtqueue
new size mem_is_null guest_mem_size = record {
  size = size;
  ready = false;
  desc_table = 0;
  avail_ring = 0;
  used_ring = 0;
  last_avail_idx = 0;
  mem_is_null = mem_is_null;
  guest_mem_size = guest_mem_size;
  hole_start = 0;
  hole_end = 0;
}

unfoldable pub set_hole : Virtqueue → ℕ → ℕ → Virtqueue
set_hole q hole_start hole_end = record q { hole_start = hole_start; hole_end = hole_end }

unfoldable pub configure : Virtqueue → ℕ → ℕ → ℕ → Virtqueue
configure q desc_table avail_ring used_ring = record q {
  desc_table = desc_table;
  avail_ring = avail_ring;
  used_ring = used_ring;
}

unfoldable pub set_ready : Virtqueue → Bool → Virtqueue
set_ready q ready = record q { ready = ready }

unfoldable pub reset : Virtqueue → Virtqueue
reset q = record q {
  ready = false;
  desc_table = 0;
  avail_ring = 0;
  used_ring = 0;
  last_avail_idx = 0;
}

unfoldable pub gpa_to_offset : Virtqueue → ℕ → Option ℕ
gpa_to_offset q gpa =
    if q.hole_start == 0
    then (if leb q.guest_mem_size gpa then none else some gpa)
    else if ltb gpa q.hole_start
    then some gpa
    else if leb q.hole_end gpa
    then (let offset = add64 q.hole_start (gpa - q.hole_end) in
        if leb q.guest_mem_size offset then none else some offset)
    else none

-- guest_read and guest_write make the same checks; each gives the offset of the slice.
unfoldable pub slice_offset : Virtqueue → ℕ → ℕ → Option ℕ
slice_offset q gpa len = do
  offset ← gpa_to_offset q gpa
  if ltb q.guest_mem_size (add64 offset len)
      then none
      else if q.mem_is_null
      then none
      else some offset

unfoldable pub guest_read : Virtqueue → Store → ℕ → ℕ → Option (List ℕ)
guest_read q s gpa len = do offset ← slice_offset q gpa len; some (load s offset len)

-- guest_write and the copy into the slice that it returns.
unfoldable pub guest_write : Virtqueue → Store → ℕ → List ℕ → Option Store
guest_write q s gpa bytes = do
  offset ← slice_offset q gpa (length bytes)
  some (store s offset bytes)

-- read_u16, read_u32, read_u64 at 2, 4, 8 bytes.
unfoldable pub read_uint : ℕ → Virtqueue → Store → ℕ → Option ℕ
read_uint width q s gpa = do bytes ← guest_read q s gpa width; some (from_le bytes)

-- write_u16 and write_u32 at 2 and 4 bytes.
unfoldable pub write_uint : ℕ → Virtqueue → Store → ℕ → ℕ → Option Store
write_uint width q s gpa val = guest_write q s gpa (to_le width val)

-- The read here is raw: of the two bounds it checks only the translation.
unfoldable pub read_avail_idx : Virtqueue → Store → ℕ
read_avail_idx q s = elim (gpa_to_offset q (add64 q.avail_ring 2)) [
  | some offset ↦ from_le (load s offset 2)
  | none ↦ 0
]

unfoldable pub sync_avail_from_guest : Virtqueue → Store → Virtqueue
sync_avail_from_guest q s =
    if q.mem_is_null || q.avail_ring == 0
    then q
    else record q { last_avail_idx = read_avail_idx q s }

unfoldable pub has_available : Virtqueue → Store → Bool
has_available q s =
    if not q.ready || q.mem_is_null then false else elim (read_uint 2 q s (add64 q.avail_ring 2)) [
      | some avail_idx ↦ not (avail_idx == q.last_avail_idx)
      | none ↦ false
    ]

unfoldable pub read_descriptor : Virtqueue → Store → ℕ → Option Descriptor
read_descriptor q s idx = do
  let desc_gpa = add64 q.desc_table (idx * desc_size)
  addr ← read_uint 8 q s desc_gpa
  len ← read_uint 4 q s (add64 desc_gpa 8)
  flags ← read_uint 2 q s (add64 desc_gpa 12)
  next ← read_uint 2 q s (add64 desc_gpa 14)
  some (record { addr = addr; len = len; flags = flags; next = next })

-- How the loop of pop_avail ends: with the descriptors, by one of its `return None`, or (of this
-- model only) for want of fuel.
pub data Walk : Type 0 where
  walked : List Descriptor → Walk
  refused : Walk
  exhausted : Walk

abbrev pub then_walked : Descriptor → Walk → Walk
then_walked d (walked ds) = walked (d ∷ ds)
then_walked d refused = refused
then_walked d exhausted = exhausted

-- The loop, from index `idx` with `seen` descriptors behind it. `size` rounds and one more are
-- enough (`Chain.walk-total`).
unfoldable pub walk : Virtqueue → Store → ℕ → ℕ → ℕ → Walk
walk q s zero idx seen = exhausted
walk q s (suc fuel) idx seen = elim (leb q.size idx) [
  | true ↦ refused
  | false ↦ elim (leb q.size seen) [
    | true ↦ refused
    | false ↦ elim (read_descriptor q s idx) [
      | none ↦ refused
      | some d ↦ elim (has_next d.flags) [
        | true ↦ then_walked d (walk q s fuel d.next (seen + 1))
        | false ↦ walked (d ∷ [])
      ]
    ]
  ]
]

-- The guest address of avail.ring[last_avail_idx % size].
abbrev pub avail_entry : Virtqueue → ℕ
avail_entry q = add64 (add64 q.avail_ring avail_ring_header) (q.last_avail_idx % q.size * 2)

abbrev pub advance : Virtqueue → Virtqueue
advance q = record q { last_avail_idx = (q.last_avail_idx + 1) % 2 ^ 16 }

abbrev pub finish : Virtqueue → ℕ → Walk → Option DescriptorChain × Virtqueue
finish q head (walked ds) = (some (record { index = head; descriptors = ds }), advance q)
finish q head refused = (none, q)
finish q head exhausted = (none, q)

unfoldable pub pop_head : Virtqueue → Store → Option DescriptorChain × Virtqueue
pop_head q s = elim (read_uint 2 q s (avail_entry q)) [
  | none ↦ (none, q)
  | some head ↦ finish q head (walk q s (suc q.size) head 0)
]

unfoldable pub pop_avail : Virtqueue → Store → Exec (Option DescriptorChain × Virtqueue)
unfolding pop_head
pop_avail q s =
    if not q.ready || q.mem_is_null
    then ret (none, q)
    else elim (read_uint 2 q s (add64 q.avail_ring 2)) [
      | none ↦ ret (none, q)
      | some avail_idx ↦
          if avail_idx == q.last_avail_idx
          then ret (none, q)
          else if q.size == 0
          then panic
          else ret (pop_head q s)
    ]

-- A chain of writes of which one may fail: those before it stay done.
abbrev pub and_then :
    Option Store → Store → (Store → Option (Unit {0}) × Store) → Option (Unit {0}) × Store
and_then none s k = (none, s)
and_then (some t) s k = k t

abbrev pub used_elem : Virtqueue → ℕ → ℕ
used_elem q used_idx =
    add64 (add64 q.used_ring used_ring_header) (used_idx % q.size * used_elem_size)

unfoldable pub push_elem : Virtqueue → Store → ℕ → ℕ → ℕ → Option (Unit {0}) × Store
push_elem q s used_idx desc_index bytes_written =
    let elem_gpa = used_elem q used_idx in
    and_then (write_uint 4 q s elem_gpa desc_index) s λ s₁.
      and_then (write_uint 4 q s₁ (add64 elem_gpa 4) bytes_written) s₁ λ s₂.
        and_then (write_uint 2 q s₂ (add64 q.used_ring 2) ((used_idx + 1) % 2 ^ 16)) s₂
          λ s₃. (some tt, s₃)

unfoldable pub push_used : Virtqueue → Store → ℕ → ℕ → Exec (Option (Unit {0}) × Store)
unfolding push_elem
push_used q s desc_index bytes_written =
    if not q.ready || q.mem_is_null
    then ret (none, s)
    else elim (read_uint 2 q s (add64 q.used_ring 2)) [
      | none ↦ ret (none, s)
      | some used_idx ↦
          if q.size == 0 then panic else ret (push_elem q s used_idx desc_index bytes_written)
    ]

unfoldable pub needs_notification : Virtqueue → Store → Bool
needs_notification q s =
    if not q.ready || q.mem_is_null
    then false
    else elim (read_uint 2 q s q.avail_ring) [ some flags ↦ flags % 2 == 0 | none ↦ true ]

unfoldable pub read_descriptor_data : Virtqueue → Store → Descriptor → Option (List ℕ)
read_descriptor_data q s desc = guest_read q s desc.addr desc.len
