-- ===== src/Virtio/Queue/Access.antt =====
-- The virtqueue's accesses to guest memory: their bounds, and what a read sees after a write.
use clone.Prelude.{
  ℕ, ◌+◌, ◌^◌, ◌≤◌, ◌<◌, ◌≡◌, refl, ◌⊎◌, some, false, arith, to_le, from_le, length-to_le,
}
use clone.Memory.Store.{Store, load, store}
use clone.Memory.Guest
use clone.Memory.Guest.{GuestMem}
use clone.Virtio.Queue.{
  Virtqueue, gpa_to_offset, slice_offset, guest_read, guest_write, read_uint, write_uint,
}

-- The queue's view of guest memory as the VMM's.
abbrev pub guest_of : Virtqueue → GuestMem
guest_of q = record { size = q.guest_mem_size; hole_start = q.hole_start; hole_end = q.hole_end }

-- The queue translates addresses as the guest memory itself does.
pub gpa_to_offset_agrees :
    (q : Virtqueue) (gpa : ℕ) → gpa_to_offset q gpa ≡ Guest.gpa_to_offset (guest_of q) gpa
unfolding gpa_to_offset Guest.gpa_to_offset
gpa_to_offset_agrees q gpa = refl

-- What the VMM sets up: the host pointer is not null, and the hole begins inside the allocation.
pub record IsMapped (q : Virtqueue) : Type 0 where
  pub present : q.mem_is_null ≡ false
  pub start_in : q.hole_start ≤ q.guest_mem_size
  pub ordered : q.hole_start ≤ q.hole_end
  pub small : q.guest_mem_size + q.hole_end < 2 ^ 63

-- For a queue whose host pointer is not null and whose hole begins inside the allocation and does
-- not end before it begins, with sizes below 2 ^ 63: whatever address, and length below 2 ^ 32, a
-- descriptor names, a slice that slice_offset hands out lies inside the allocation.
pub slice_offset_bounds :
    {q : Virtqueue} (gpa len : ℕ) {offset : ℕ}
    → IsMapped q
    → len < 2 ^ 32
    → slice_offset q gpa len ≡ some offset
    → offset + len ≤ q.guest_mem_size
unfolding slice_offset gpa_to_offset
slice_offset_bounds gpa len v h e = ground arith

-- Where no hole is in the way, an address is its own offset.
pub slice_offset-low :
    (q : Virtqueue) (gpa len : ℕ)
    → q.mem_is_null ≡ false
    → (q.hole_start ≡ 0) ⊎ (gpa < q.hole_start)
    → 0 < len
    → gpa + len ≤ q.guest_mem_size
    → q.guest_mem_size < 2 ^ 63
    → slice_offset q gpa len ≡ some gpa
unfolding slice_offset gpa_to_offset
slice_offset-low q gpa len v h l fits w = ground arith

-- A number written where a slice begins, and one read from there.
module _ (q : Virtqueue) (s : Store) (gpa width : ℕ) {offset : ℕ} where
  pub read_uint-at :
      slice_offset q gpa width ≡ some offset
      → read_uint width q s gpa ≡ some (from_le (load s offset width))
  unfolding read_uint guest_read
  read_uint-at e = rw e

  pub write_uint-at :
      (val : ℕ)
      → slice_offset q gpa width ≡ some offset
      → write_uint width q s gpa val ≡ some (store s offset (to_le width val))
  unfolding write_uint guest_write
  write_uint-at val e = rw (length-to_le width val, e)
