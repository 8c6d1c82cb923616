-- ===== src/Virtio/Queue/Tests.antt =====
-- A queue of two descriptors in 256 bytes of memory: the table at 0, the available ring at 32, the
-- used ring at 64, two buffers at 128 and 144. The driver has made the chain 0, 1 available.
use clone.Prelude.{ℕ, ◌+◌, ◌≡◌, ◌≤◌, refl, none, some, List, [], ◌∷◌, true, false, inl, arith, ret}
use clone.Memory.Store.{Store, put}
use clone.Virtio.Queue.{
  Virtqueue, DescriptorChain, advance, walk, pop_avail, push_used, read_uint, guest_read,
  guest_write, slice_offset, gpa_to_offset, read_descriptor, has_available, write_uint,
}
use clone.Virtio.Queue.Access.{slice_offset_bounds}
use clone.Virtio.Queue.Avail.{IsNext, pop_avail_iff}
use clone.Virtio.Queue.Used.{
  IsPlaced, IsCompletion, used_idx, push_used-IsCompletion, push_used-others, pushed,
}

abbrev pub queue : Virtqueue
queue = record {
  size = 2;
  ready = true;
  desc_table = 0;
  avail_ring = 32;
  used_ring = 64;
  last_avail_idx = 0;
  mem_is_null = false;
  guest_mem_size = 256;
  hole_start = 0;
  hole_end = 0;
}

abbrev at : List (ℕ × ℕ) → Store
at [] j = 0
at ((i, b) ∷ rest) j = put (at rest) i b j

abbrev pub memory : Store
memory = at ((0, 128) ∷ (8, 16) ∷ (12, 1) ∷ (14, 1) ∷ (16, 144) ∷ (24, 4) ∷ (28, 2) ∷ (34, 1) ∷ [])

-- The first descriptor names itself as the next.
abbrev looped : Store
looped = put memory 14 0

abbrev chain : DescriptorChain
chain = record {
  index = 0;
  descriptors =
      record { addr = 128; len = 16; flags = 1; next = 1 }
      ∷ record { addr = 144; len = 4; flags = 2; next = 0 }
      ∷ [];
}

chain_popped : pop_avail queue memory ≡ ret (some chain, advance queue)
unfolding pop_avail read_uint guest_read slice_offset gpa_to_offset walk read_descriptor
chain_popped = refl

loop_refused : pop_avail queue looped ≡ ret (none, queue)
unfolding pop_avail read_uint guest_read slice_offset gpa_to_offset walk read_descriptor
loop_refused = refl

nothing_left : pop_avail (advance queue) memory ≡ ret (none, advance queue)
unfolding pop_avail read_uint guest_read slice_offset gpa_to_offset
nothing_left = refl

available : has_available queue memory ≡ true
unfolding has_available read_uint guest_read slice_offset gpa_to_offset
available = refl

pub queue-IsPlaced : IsPlaced queue
queue-IsPlaced = record {
  is_ready = refl;
  present = refl;
  sized = omega arith;
  below = inl refl;
  inside = omega arith;
  small = omega arith;
}

pop_avail_iff_example : IsNext queue memory chain × (advance queue ≡ advance queue)
pop_avail_iff_example = (pop_avail_iff queue memory chain (advance queue)).0 chain_popped

slice_offset_bounds_example : 240 + 16 ≤ 256
unfolding slice_offset gpa_to_offset
slice_offset_bounds_example =
    slice_offset_bounds {q = queue} 240 16 {offset = 240}
      (record {
        present = refl;
        start_in = omega arith;
        ordered = omega arith;
        small = omega arith;
      })
      (omega arith) refl

push_used-IsCompletion_example :
    (t : Store) × (push_used queue memory 0 4 ≡ ret (some tt, t)) × IsCompletion queue memory 0 4 t
push_used-IsCompletion_example =
    push_used-IsCompletion {q = queue} memory 0 4 queue-IsPlaced (omega arith) (omega arith)

-- The available ring is as it was.
push_used-others_example : pushed queue memory 0 0 4 34 ≡ 1
unfolding push_used read_uint guest_read slice_offset gpa_to_offset used_idx pushed write_uint
    guest_write
push_used-others_example =
    push_used-others {q = queue} memory 0 4 34 {t = pushed queue memory 0 0 4} {o = some tt}
      queue-IsPlaced (inl (omega arith)) (inl (omega arith)) refl
