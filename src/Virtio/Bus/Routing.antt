-- ===== src/Virtio/Bus/Routing.antt =====
-- Where the bus sends an access, and what it leaves alone.
use clone.Prelude.{
  ℕ, zero, suc, ◌+◌, ◌-◌, ◌/◌, ◌%◌, ◌≤◌, ◌<◌, ◌≡◌, ◌≢◌, ◌⊎◌, refl, sym, ◌∙◌, some, Option, List, [],
  ◌∷◌, ◌++◌, Bool, arith, length, get_elem?, get_elem?-set_ne, Option-cases, inl, inr,
}
use clone.Memory.Store.{Store}
use clone.Virtio.Device.{VirtioDevice, mmio_base, mmio_stride}
use clone.Virtio.Mmio.{MmioTransport, new_with_mem}
use clone.Virtio.Mmio.Drain.{Outcome, finished, panicked, exhausted}
use clone.Virtio.Mmio.Write.{write}
use clone.Virtio.Bus.{MmioBus, base_of, irq_of, find_device, register, put_device, handle_write}

-- Two devices never share an interrupt line, and none has line 8, the clock's.
pub irq_of_distinct : (i j : ℕ) → i ≢ j → (irq_of i ≢ irq_of j) × (irq_of i ≢ 8) × (irq_of j ≢ 8)
irq_of_distinct i j ne = (λ e. ground arith, λ e. ground arith, λ e. ground arith)

-- An address names the device in whose window it lies.
pub find_device-window :
    {D : Type 0} (b : MmioBus D) (i offset : ℕ) (t : MmioTransport D)
    → get_elem? b.devices i ≡ some t
    → offset < mmio_stride
    → find_device b (base_of i + offset) ≡ some (t, offset)
unfolding find_device
find_device-window b i offset t e h = ground (arith, at_index, at_offset)
  where
    at_index : (base_of i + offset - mmio_base) / mmio_stride ≡ i
    at_index = omega arith

    at_offset : (base_of i + offset - mmio_base) % mmio_stride ≡ offset
    at_offset = omega arith

get_elem?-last {ℓ} :
    {A : Type ℓ} (xs : List A) (x : A) → get_elem? (xs ++ x ∷ []) (length xs) ≡ some x
get_elem?-last [] x = refl
get_elem?-last (y ∷ xs) x = get_elem?-last xs x

get_elem?-before {ℓ} :
    {A : Type ℓ} (xs : List A) (x : A) (i : ℕ) {a : A}
    → get_elem? xs i ≡ some a
    → get_elem? (xs ++ x ∷ []) i ≡ some a
get_elem?-before [] x i e = cc
get_elem?-before (y ∷ xs) x zero e = e
get_elem?-before (y ∷ xs) x (suc i) e = get_elem?-before xs x i e

find_device-above :
    {D : Type 0} (b : MmioBus D) (addr : ℕ) {x : MmioTransport D × ℕ}
    → find_device b addr ≡ some x
    → mmio_base ≤ addr
unfolding find_device
find_device-above b addr e = ground arith

module _ {D : Type 0} (dev : VirtioDevice D) where
  -- A newly registered device answers every offset of the window whose base register returned, as a
  -- new transport on the line that it returned, with the bus's memory.
  pub find_device-register :
      (b : MmioBus D) (device : D) (offset : ℕ)
      → offset < mmio_stride
      → let (b', base, irq) = register dev b device in
        find_device b' (base + offset)
        ≡ some (new_with_mem dev device irq b.mem_is_null b.guest_mem_size, offset)
  unfolding register
  find_device-register b device offset h =
      find_device-window (register dev b device).0 (length b.devices) offset _
        (get_elem?-last b.devices _) h

  -- Registering a device leaves what every address in the window of an earlier device resolves to
  -- as it was.
  pub find_device-register_ne :
      (b : MmioBus D) (device : D) (i offset : ℕ) (t : MmioTransport D)
      → offset < mmio_stride
      → get_elem? b.devices i ≡ some t
      → find_device (register dev b device).0 (base_of i + offset)
        ≡ find_device b (base_of i + offset)
  unfolding register
  find_device-register_ne b device i offset t h e =
      find_device-window (register dev b device).0 i offset t (get_elem?-before b.devices _ i e) h
      ∙ sym (find_device-window b i offset t e h)

  put_device-others :
      (b b' : MmioBus D) (addr i : ℕ) (t : MmioTransport D) (r : Outcome (MmioTransport D × Store))
      (s' : Store) (o : Bool × Option ℕ)
      → put_device dev b addr t r ≡ finished (b', s', o.0, o.1)
      → (addr - mmio_base) / mmio_stride ≢ i
      → get_elem? b'.devices i ≡ get_elem? b.devices i
  put_device-others b b' addr i t panicked s' o e ne = cc
  put_device-others b b' addr i t exhausted s' o e ne = cc
  put_device-others b b' addr i t (finished (t', s)) s' o e ne =
      ground
        (arith, get_elem?-set_ne b.devices {i = (addr - mmio_base) / mmio_stride} {j = i} t' ne)

  -- A write through the bus that ends, to an address outside the window of index `i`, leaves the
  -- transport of that index as it was.
  pub handle_write-others :
      (fuel : ℕ) (b b' : MmioBus D) (s s' : Store) (addr : ℕ) (bytes : List ℕ) (i : ℕ)
      (handled : Bool) (irq : Option ℕ)
      → handle_write dev fuel b s addr bytes ≡ finished (b', s', handled, irq)
      → (addr < base_of i) ⊎ (base_of i + mmio_stride ≤ addr)
      → get_elem? b'.devices i ≡ get_elem? b.devices i
  unfolding handle_write
  handle_write-others fuel b b' s s' addr bytes i handled irq e away =
      elim (Option-cases (find_device b addr)) [
        | inl p ↦ ground arith
        | inr ((t, offset), p) ↦
            let above = find_device-above b addr p in
            put_device-others b b' addr i t (write dev fuel t s offset bytes) s' (handled, irq)
              (rw (p, handle_write) at e) (ground arith)
      ]
