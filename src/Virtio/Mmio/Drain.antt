-- ===== src/Virtio/Mmio/Drain.antt =====
-- virtio/mmio.rs, process_queue_descriptors: the transport serves every chain that is available.
pub mod Ends
use clone.Prelude.{
  ℕ, zero, suc, Option, none, some, Bool, true, false, if◌then◌else◌, Exec, ret, panic, get_elem?,
  set, ◌||◌, not,
}
use clone.Memory.Store.{Store}
use clone.Virtio.Queue
use clone.Virtio.Queue.{Virtqueue, DescriptorChain}
use clone.Virtio.Device.{VirtioDevice}
use clone.Virtio.Mmio.{MmioTransport, raise_used_ring_interrupt}

-- How a run ends: with its result, by a panic, or (of this model only) for want of fuel.
pub data Outcome (A : Type 0) : Type 0 where
  finished : A → Outcome A
  panicked : Outcome A
  exhausted : Outcome A

-- The variables of the loop.
pub record Served (D : Type 0) : Type 0 where
  pub device : D
  pub mem : Store
  pub vq : Virtqueue
  pub raised : Bool

-- What push_used leaves in memory; its own result is ignored. A panic there has come before in
-- pop_avail, on the same size.
abbrev pub pushed_mem : Store → Exec (Option (Unit {0}) × Store) → Store
pushed_mem s (ret (o, t)) = t
pushed_mem s panic = s

module _ {D : Type 0} (dev : VirtioDevice D) (queue_idx : ℕ) where
  -- One round, for a chain that pop_avail has returned.
  unfoldable pub serve : Served D → DescriptorChain → Virtqueue → Served D
  serve st chain vq =
      let done = dev.process_descriptor_chain st.device st.mem queue_idx chain vq in
      let mem = pushed_mem done.mem (Queue.push_used vq done.mem chain.index done.written) in
      record {
        device = done.device;
        mem = mem;
        vq = vq;
        raised = Queue.needs_notification vq mem || st.raised;
      }

  -- while let Some(chain) = vq.pop_avail()
  unfoldable pub drain : ℕ → Served D → Outcome (Served D)
  drain zero st = exhausted
  drain (suc fuel) st = elim (Queue.pop_avail st.vq st.mem) [
    | panic ↦ panicked
    | ret (none, vq) ↦ finished (record st { vq = vq })
    | ret (some chain, vq) ↦ drain fuel (serve st chain vq)
  ]

  abbrev pub put_back : MmioTransport D → Outcome (Served D) → Outcome (MmioTransport D × Store)
  put_back t panicked = panicked
  put_back t exhausted = exhausted
  put_back t (finished st) =
      let t' = record t { device = st.device; virtqueues = set t.virtqueues queue_idx st.vq } in
      finished (if st.raised then raise_used_ring_interrupt t' else t', st.mem)

  unfoldable pub process_queue_descriptors :
      ℕ → MmioTransport D → Store → Outcome (MmioTransport D × Store)
  process_queue_descriptors fuel t s = elim (get_elem? t.virtqueues queue_idx) [
    | none ↦ finished (t, s)
    | some vq ↦
        if not vq.ready
        then finished (t, s)
        else put_back t
            (drain fuel (record { device = t.device; mem = s; vq = vq; raised = false }))
  ]
