-- ===== src/Virtio/Mmio/Drain/Ends.antt =====
-- The loop over a queue's chains ends, though the driver may fill the queue while it runs.
use clone.Prelude.{
  ℕ, zero, suc, ◌+◌, ◌-◌, ◌%◌, ◌^◌, ◌<◌, ◌≡◌, ◌≢◌, refl, none, some, Option, Bool, arith, Exec, ret,
  panic, ◌⊎◌, inl, inr,
}
use clone.Memory.Store.{Store}
use clone.Virtio.Queue.{
  Virtqueue, DescriptorChain, add64, gpa_to_offset, slice_offset, guest_read, read_uint, pop_avail,
  push_used,
}
use clone.Virtio.Queue.Avail.{pop_avail_iff, pop_avail_total}
use clone.Virtio.Device.{VirtioDevice}
use clone.Virtio.Mmio.Drain.{finished, Served, pushed_mem, serve, drain}

-- The queue `vq`, with `l` entries of the available ring consumed.
abbrev pub at_idx : Virtqueue → ℕ → Virtqueue
at_idx vq l = record vq { last_avail_idx = l }

-- While the loop runs avail.idx stays at `a`: every store that it meets satisfies `P`, where
-- avail.idx reads as `a`, and neither the device nor push_used leaves `P`.
pub record IsStill {D : Type 0} (dev : VirtioDevice D) (queue_idx : ℕ) (vq : Virtqueue) (a : ℕ)
    (P : Store → Type 0) : Type 0 where
  pub idx_bound : a < 2 ^ 16
  pub reads : (s : Store) → P s → read_uint 2 vq s (add64 vq.avail_ring 2) ≡ some a
  pub device_keeps :
      (d : D) (s : Store) (c : DescriptorChain) (l : ℕ)
      → P s
      → P (dev.process_descriptor_chain d s queue_idx c (at_idx vq l)).mem
  pub used_keeps :
      (s : Store) (head written l : ℕ)
      → P s
      → P (pushed_mem s (push_used (at_idx vq l) s head written))

pub Pop-cases :
    (r : Exec (Option DescriptorChain × Virtqueue))
    → (r ≡ panic)
      ⊎ ((vq : Virtqueue) × (r ≡ ret (none, vq)))
      ⊎ ((c : DescriptorChain) × (vq : Virtqueue) × (r ≡ ret (some c, vq)))
Pop-cases panic = inl refl
Pop-cases (ret (none, vq)) = inr (inl (vq, refl))
Pop-cases (ret (some c, vq)) = inr (inr (c, vq, refl))

module _ {D : Type 0} (dev : VirtioDevice D) (queue_idx : ℕ) (vq : Virtqueue) (a : ℕ)
    (P : Store → Type 0) (still : IsStill dev queue_idx vq a P) where
  read_at_idx :
      (s : Store) (l : ℕ) → P s → read_uint 2 (at_idx vq l) s (add64 vq.avail_ring 2) ≡ some a
  unfolding read_uint guest_read slice_offset gpa_to_offset
  read_at_idx s l p = still.reads s p

  pop_moves :
      (s : Store) (l : ℕ) (c : DescriptorChain) (r : Virtqueue)
      → P s
      → pop_avail (at_idx vq l) s ≡ ret (some c, r)
      → (a ≢ l) × (r ≡ at_idx vq ((l + 1) % 2 ^ 16))
  pop_moves s l c r p e =
      let (next, same) = (pop_avail_iff (at_idx vq l) s c r).0 e in
      (ground (arith, next.has_idx, next.moved, read_at_idx s l p), same)

  abbrev state_at : D → Store → ℕ → Bool → Served D
  state_at d s l b = record { device = d; mem = s; vq = at_idx vq l; raised = b }

  -- For a queue of nonzero size, while avail.idx stays at `a` (every store that the loop meets
  -- satisfies `P`, where avail.idx reads as `a`, and neither the device nor push_used leaves `P`),
  -- the loop over the chains ends by its own test, with no panic, on fuel for one round more than
  -- there are entries available; so enough fuel exists, and what a chain holds is of no matter.
  pub drain_ends :
      (fuel l : ℕ) (d : D) (s : Store) (b : Bool)
      → 0 < vq.size
      → l < 2 ^ 16
      → (a + 2 ^ 16 - l) % 2 ^ 16 < fuel
      → P s
      → (st : Served D) × (drain dev queue_idx fuel (state_at d s l b) ≡ finished st)
  unfolding drain serve
  drain_ends zero l d s b sized hl f p = absurd (omega arith)
  drain_ends (suc fuel) l d s b sized hl f p = elim (Pop-cases (pop_avail (at_idx vq l) s)) [
    | inl panics ↦ let (r, total) = pop_avail_total (at_idx vq l) s sized in cc
    | inr (inl (vq', nothing)) ↦
        (record { device = d; mem = s; vq = vq'; raised = b }, rw (nothing, drain))
    | inr (inr (c, vq', popped)) ↦
        let (ne, same) = pop_moves s l c vq' p popped in
        let step = rw same at popped in
        let l' = (l + 1) % 2 ^ 16 in
        let done = dev.process_descriptor_chain d s queue_idx c (at_idx vq l') in
        let p' =
          still.used_keeps done.mem c.index done.written l' (still.device_keeps d s c l' p) in
        rw (step, drain)
          (drain_ends fuel l' done.device _ _ sized (omega arith) (omega (arith, still.idx_bound))
            p')
  ]
