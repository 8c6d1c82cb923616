-- ===== src/Storage/Qcow2/Image/WriteAt.antt =====
-- About storage/qcow2.rs: Qcow2File.
-- Writes of any length: write_at writes the bytes over the guest's disk.
use clone.Prelude.{
  ℕ, zero, suc, ap, ◌∙◌, ◌+◌, ◌-◌, ◌*◌, ◌%◌, ◌^◌, ◌≤◌, ◌<◌, ◌≡◌, refl, sym, List, [], ◌∷◌, true,
  false, arith, length,
}
use clone.Memory.Store.{load}
use clone.Storage.Reply.{Reply, done, after}
use clone.Storage.Qcow2.Header.{Qcow2Header, cluster_size}
use clone.Storage.Qcow2.Image.{Qcow2File, M}
use clone.Storage.Qcow2.Image.Sound.{Owner, IsSized, cluster_size_bounds}
use clone.Storage.Qcow2.Image.Disk.{guest_byte}
use clone.Storage.Qcow2.Image.Contract.{IsDisk, IsSound}
use clone.Memory.Store.{store}
use clone.Storage.Qcow2.Image.Io.{write_chunk}
use clone.Storage.Qcow2.Image.GuestWrite.{store_at}
use clone.Memory.Store.{store-append, load-store_self}
use clone.Prelude.{take, drop, length-take, length-drop, take-append-drop, leb, ◌++◌}
use clone.Storage.Qcow2.Image.Io.{chunk_len, write_loop, write_at, read_at}
use clone.Storage.Qcow2.Image.Tables.{load_ext}
use clone.Storage.Qcow2.Image.ReadAt.{chunk_len_bounds, read_at-IsRead}
use clone.Storage.Qcow2.Image.Writing.{IsWrite, write_chunk-IsWrite}

-- The whole cluster of each byte of the disk can be read from below.
abbrev pub IsPadded : Qcow2Header → ℕ → Type 0
IsPadded h top = (x : ℕ) → x < h.size → x - x % cluster_size h + cluster_size h ≤ top

module _ {B : Type 0} (read : B → ℕ → ℕ → B × Reply (List ℕ)) (peek : B → ℕ → ℕ) (limit : B → ℕ)
    (Good : B → Type 0) (top : ℕ) (disk : IsDisk read peek limit Good) where
  -- Two writes, one behind the other.
  IsWrite-then :
      {own : ℕ → Owner} (q : Qcow2File B) (m k : M B (Unit {0})) (pos : ℕ) (xs ys : List ℕ)
      (extra more : ℕ) (r : IsWrite read peek limit Good top disk own q m pos xs extra)
      → IsWrite read peek limit Good top disk r.own_w r.image_w k (pos + length xs) ys more
      → IsWrite read peek limit Good top disk own q
          (λ q'. after (m q') λ _. k)
          pos
          (xs ++ ys)
          (extra + more)
  IsWrite-then q m k pos xs ys extra more r t = record {
    own_w = t.own_w;
    image_w = t.image_w;
    ends_w = ap (λ p. after p λ _. k) r.ends_w ∙ t.ends_w;
    sound_w = t.sound_w;
    header_w = t.header_w ∙ r.header_w;
    short_w = omega (arith, r.short_w, t.short_w);
    disk_w = λ x lx.
        t.disk_w x (rw r.header_w lx)
        ∙ store_at (guest_byte peek r.image_w) (store (guest_byte peek q) pos xs) (pos + length xs)
            ys x (r.disk_w x lx)
        ∙ ap (λ f. f x) (sym (store-append (guest_byte peek q) pos xs ys));
  }

  -- The same write, by the names that the loop has for it.
  IsWrite-named :
      {own : ℕ → Owner} (q : Qcow2File B) (m k : M B (Unit {0})) (pos : ℕ) (xs ys : List ℕ)
      (extra more : ℕ)
      → m q ≡ k q
      → xs ≡ ys
      → extra ≤ more
      → IsWrite read peek limit Good top disk own q k pos xs extra
      → IsWrite read peek limit Good top disk own q m pos ys more
  IsWrite-named q m k pos xs ys extra more same e l r = record {
    own_w = r.own_w;
    image_w = r.image_w;
    ends_w = same ∙ r.ends_w;
    sound_w = r.sound_w;
    header_w = r.header_w;
    short_w = omega (arith, r.short_w);
    disk_w = λ x lx. r.disk_w x lx ∙ ap (λ bs. store (guest_byte peek q) pos bs x) e;
  }

  room_after :
      {own : ℕ → Owner} (q : Qcow2File B) (m : M B (Unit {0})) (pos : ℕ) (xs : List ℕ) (left n : ℕ)
      (r : IsWrite read peek limit Good top disk own q m pos xs (4 * cluster_size q.header))
      → IsSized q.header
      → left < n
      → q.next_alloc_offset + n * 2 ^ 23 < 2 ^ 55
      → r.image_w.next_alloc_offset + left * 2 ^ 23 < 2 ^ 55
  room_after q m pos xs left n r v less below =
      let sizes = cluster_size_bounds q.header v in omega (arith, r.short_w, sizes)

  write_loop-IsWrite :
      (fuel : ℕ) (own : ℕ → Owner) (q : Qcow2File B) (pos : ℕ) (bytes : List ℕ)
      → IsSound peek limit Good top own q
      → IsPadded q.header top
      → pos + length bytes ≤ q.header.size
      → q.next_alloc_offset + length bytes * 2 ^ 23 < 2 ^ 55
      → length bytes ≤ fuel
      → IsWrite read peek limit Good top disk own q
          (write_loop read fuel pos bytes)
          pos
          bytes
          (length bytes * 2 ^ 23)
  unfolding write_loop store
  write_loop-IsWrite fuel own q pos [] s padded long below enough = record {
    own_w = own;
    image_w = q;
    ends_w = refl;
    sound_w = s;
    header_w = refl;
    short_w = omega arith;
    disk_w = λ x l. refl;
  }
  write_loop-IsWrite zero own q pos (b ∷ bytes) s padded long below enough = absurd (omega arith)
  write_loop-IsWrite (suc fuel) own q pos (b ∷ bytes) s padded long below enough =
      let all = b ∷ bytes in
      let len = chunk_len q.header pos (length all) in
      let sizes = cluster_size_bounds q.header s.laid.sized in
      let (some_byte, part, room) = chunk_len_bounds q.header pos (length bytes) s.laid.sized in
      let chunk = take len all in
      let rest = drop len all in
      let size : length chunk ≡ len = length-take len all ∙ omega arith in
      let left : length rest ≡ length all - len = length-drop len all in
      let r =
        write_chunk-IsWrite read peek limit Good top disk q pos chunk s (omega arith) (rw size room)
          (omega (arith, sizes)) (λ l. padded pos (omega arith)) in
      let below' =
        room_after q (write_chunk read pos chunk) pos chunk (length rest) (length all) r
          s.laid.sized (rw left (omega arith)) below in
      let t =
        write_loop-IsWrite fuel r.own_w r.image_w (pos + length chunk) rest r.sound_w
          (rw r.header_w padded) (rw (r.header_w, left, size) (omega arith)) below'
          (rw left (omega arith)) in
      IsWrite-named q (write_loop read (suc fuel) pos all)
        (λ q'.
          after (write_chunk read pos chunk q') λ _. write_loop read fuel (pos + length chunk) rest)
        pos (chunk ++ rest) all (4 * cluster_size q.header + length rest * 2 ^ 23)
        (length all * 2 ^ 23)
        (ap (λ n. after (write_chunk read pos chunk q) λ _. write_loop read fuel (pos + n) rest)
          (sym size))
        (take-append-drop len all) (rw left (omega (arith, sizes)))
        (IsWrite-then q (write_chunk read pos chunk)
          (write_loop read fuel (pos + length chunk) rest) pos chunk rest
          (4 * cluster_size q.header) (length rest * 2 ^ 23) r t)

  -- On a sound image (no two of its L2 tables, refcount blocks and guest clusters overlap, what is
  -- cached agrees with the file, every mapped cluster is whole inside the file, and its backing
  -- file, which keeps the contract of a disk, can be read up to `top`), where `top` is not below
  -- the end of any of the disk's clusters, with an end of file that leaves 2 ^ 23 bytes for each
  -- byte written below 2 ^ 55: write_at of any bytes inside the virtual size succeeds, leaves a
  -- sound image with the same header, and the guest's disk is then the disk from before with the
  -- bytes stored over it at the offset, and no other byte changed.
  pub write_at-IsWrite :
      {own : ℕ → Owner} (q : Qcow2File B) (offset : ℕ) (bytes : List ℕ)
      → IsSound peek limit Good top own q
      → IsPadded q.header top
      → offset + length bytes ≤ q.header.size
      → q.next_alloc_offset + length bytes * 2 ^ 23 < 2 ^ 55
      → IsWrite read peek limit Good top disk own q
          (write_at read offset bytes)
          offset
          bytes
          (length bytes * 2 ^ 23)
  unfolding write_at
  write_at-IsWrite {own} q offset bytes s padded long below =
      let small : leb (2 ^ 64) (offset + length bytes) ≡ false = ground (arith, s.laid.small) in
      let inside : leb (offset + length bytes) q.header.size ≡ true = ground arith in
      let r =
        write_loop-IsWrite (length bytes) own q offset bytes s padded long below (omega arith) in
      let e : write_at read offset bytes q ≡ write_loop read (length bytes) offset bytes q =
        rw (write_at, small, inside) refl in
      record {
        own_w = r.own_w;
        image_w = r.image_w;
        ends_w = e ∙ r.ends_w;
        sound_w = r.sound_w;
        header_w = r.header_w;
        short_w = r.short_w;
        disk_w = r.disk_w;
      }

  -- On a sound image with room to grow, whose clusters can all be read whole from the backing file,
  -- a write inside the virtual size succeeds, and a read of the same range after it returns the
  -- bytes written.
  pub read_back_written :
      {own : ℕ → Owner} (q : Qcow2File B) (offset : ℕ) (bytes : List ℕ)
      → IsSound peek limit Good top own q
      → IsPadded q.header top
      → offset + length bytes ≤ q.header.size
      → q.next_alloc_offset + length bytes * 2 ^ 23 < 2 ^ 55
      → (r : Qcow2File B) × (r' : Qcow2File B) × (write_at read offset bytes q ≡ (r, done tt))
        × (read_at read offset (length bytes) r ≡ (r', done bytes))
  read_back_written q offset bytes s padded long below =
      let w = write_at-IsWrite q offset bytes s padded long below in
      let r =
        read_at-IsRead read peek limit Good top disk w.image_w offset (length bytes) w.sound_w
          (rw w.header_w long) in
      let view = store (guest_byte peek q) offset bytes in
      let same : load (guest_byte peek w.image_w) offset (length bytes)
          ≡ load view offset (length bytes) =
        load_ext (guest_byte peek w.image_w) view offset (length bytes)
          (λ k l. w.disk_w (offset + k) (omega arith)) in
      (
        w.image_w,
        r.image,
        w.ends_w,
        r.ends
            ∙ ap (λ bs. (r.image, done bs))
                (same ∙ load-store_self (guest_byte peek q) offset bytes),
      )
