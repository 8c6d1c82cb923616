-- ===== src/Virtio/Queue/Avail.antt =====
-- pop_avail: exactly which chain it returns, and that it moves on by one entry.
use clone.Prelude.{
  ℕ, suc, ◌≤◌, ◌<◌, ◌≡◌, ◌≢◌, ◌↔◌, inl, inr, none, some, Option, true, false, arith, length,
  Option-cases, List, [], ◌∷◌, not, ◌||◌, ◌==◌, if◌then◌else◌, ret,
}
use clone.Memory.Store.{Store}
use clone.Virtio.Queue.{
  Descriptor, Virtqueue, DescriptorChain, add64, read_uint, avail_entry, advance, walk, walked,
  pop_head, pop_avail,
}
use clone.Virtio.Queue.Chain.{IsChain, walk-IsChain, IsChain-walk}

-- The chain `c` is the next that the driver has made available: avail.idx has moved past the
-- entries consumed, the entry of the ring names the head, and from there the table holds a chain of
-- at most `size` descriptors.
pub record IsNext (q : Virtqueue) (s : Store) (c : DescriptorChain) : Type 0 where
  pub is_ready : q.ready ≡ true
  pub present : q.mem_is_null ≡ false
  pub avail_idx : ℕ
  pub has_idx : read_uint 2 q s (add64 q.avail_ring 2) ≡ some avail_idx
  pub moved : avail_idx ≢ q.last_avail_idx
  pub head : read_uint 2 q s (avail_entry q) ≡ some c.index
  pub chain : IsChain q s c.index c.descriptors
  pub fits : length c.descriptors ≤ q.size

module _ (q : Virtqueue) (s : Store) where
  pop_head-inv :
      (c : DescriptorChain) {r : Virtqueue}
      → pop_head q s ≡ (some c, r)
      → (read_uint 2 q s (avail_entry q) ≡ some c.index)
        × (walk q s (suc q.size) c.index 0 ≡ walked c.descriptors)
        × (r ≡ advance q)
  unfolding pop_head
  pop_head-inv c e = ground arith

  pop_avail-inv :
      (c : DescriptorChain) {r : Virtqueue}
      → pop_avail q s ≡ ret (some c, r)
      → (q.ready ≡ true)
        × (q.mem_is_null ≡ false)
        × (a : ℕ) × (read_uint 2 q s (add64 q.avail_ring 2) ≡ some a)
        × (a ≢ q.last_avail_idx)
        × (pop_head q s ≡ (some c, r))
  unfolding pop_avail
  pop_avail-inv c e = elim (Option-cases (read_uint 2 q s (add64 q.avail_ring 2))) [
    | inl p ↦ ground arith
    | inr (a, p) ↦ (ground arith, ground arith, a, p, ground arith, ground arith)
  ]

  -- A chain that pop_avail returns is the next one of the ring, and the queue moves on by one entry.
  pop_avail_sound :
      (c : DescriptorChain) {r : Virtqueue}
      → pop_avail q s ≡ ret (some c, r)
      → IsNext q s c × (r ≡ advance q)
  pop_avail_sound c e =
      let (is_ready, present, a, has_idx, moved, popped) = pop_avail-inv c e in
      let (head, w, same) = pop_head-inv c popped in
      let (chain, fits) = walk-IsChain q s (suc q.size) c.index 0 c.descriptors w in
      (
        record {
          is_ready = is_ready;
          present = present;
          avail_idx = a;
          has_idx = has_idx;
          moved = moved;
          head = head;
          chain = chain;
          fits = omega arith;
        },
        same,
      )

  IsChain-sized : (idx : ℕ) (ds : List Descriptor) → IsChain q s idx ds → 0 < q.size
  IsChain-sized idx [] h = absurd h
  IsChain-sized idx (d ∷ []) h = omega arith
  IsChain-sized idx (d ∷ e ∷ ds) h = omega arith

  -- The next chain of the ring is what pop_avail returns.
  pop_avail_complete :
      (c : DescriptorChain) → IsNext q s c → pop_avail q s ≡ ret (some c, advance q)
  unfolding pop_avail pop_head
  pop_avail_complete c v = ground (
    arith,
    IsChain-sized c.index c.descriptors v.chain,
    IsChain-walk q s (suc q.size) c.index 0 c.descriptors v.chain,
  )

  -- For every queue, memory, chain and resulting queue: pop_avail returns the chain exactly when it
  -- is the next one that the driver has made available (the queue is ready, avail.idx has moved,
  -- the ring's entry names the head, and the table holds an ended chain of at most `size`
  -- descriptors from there), and then the queue is the same with last_avail_idx moved on by one
  -- modulo 2 ^ 16.
  pub pop_avail_iff :
      (c : DescriptorChain) (r : Virtqueue)
      → (pop_avail q s ≡ ret (some c, r)) ↔ (IsNext q s c × (r ≡ advance q))
  pop_avail_iff c r = (pop_avail_sound c, λ (v, same). rw same (pop_avail_complete c v))

  -- Where pop_avail returns none the queue is as it was, so that a malformed entry is not consumed.
  pub pop_avail-none : {r : Virtqueue} → pop_avail q s ≡ ret (none, r) → r ≡ q
  unfolding pop_avail pop_head
  pop_avail-none e = ground arith

  -- On a queue of nonzero size pop_avail returns, whatever is in memory: it does not panic.
  pub pop_avail_total :
      0 < q.size → (r : Option DescriptorChain × Virtqueue) × (pop_avail q s ≡ ret r)
  unfolding pop_avail
  pop_avail_total h = elim (Option-cases (read_uint 2 q s (add64 q.avail_ring 2))) [
    | inl p ↦ ((none, q), ground arith)
    | inr (a, p) ↦ (
      if not q.ready || q.mem_is_null || a == q.last_avail_idx then (none, q) else pop_head q s,
      ground arith,
    )
  ]
