-- ===== src/Storage/Qcow2/Image/ReadAt.antt =====
-- About storage/qcow2.rs: Qcow2File.
-- Reads of any length: read_at returns the bytes of the guest's disk.
use clone.Prelude.{
  ℕ, zero, suc, ap, ◌∙◌, ◌+◌, ◌-◌, ◌%◌, ◌^◌, ◌≤◌, ◌<◌, ◌≡◌, refl, sym, List, ◌++◌, true, false,
  arith, leb,
}
use native.Mathlib.Nat.{mod-lt}
use clone.Memory.Store.{load}
use clone.Storage.Reply.{Reply, done, after}
use clone.Storage.Qcow2.Header.{Qcow2Header, cluster_size}
use clone.Storage.Qcow2.Image.{Qcow2File}
use clone.Storage.Qcow2.Image.Io.{chunk_len, read_loop, read_at}
use clone.Storage.Qcow2.Image.Tables.{load_ext, load-append}
use clone.Storage.Qcow2.Image.Sound.{Owner, IsSized, cluster_size_bounds}
use clone.Storage.Qcow2.Image.Disk.{guest_byte}
use clone.Storage.Qcow2.Image.Contract.{IsDisk, IsSound, IsRead}
use clone.Storage.Qcow2.Image.Reading.{read_chunk-IsRead}

-- A chunk takes at least a byte, stays in its cluster, and is not more than what is asked for.
pub chunk_len_bounds :
    (h : Qcow2Header) (pos n : ℕ)
    → IsSized h
    → (1 ≤ chunk_len h pos (suc n))
      × (chunk_len h pos (suc n) ≤ suc n)
      × (pos % cluster_size h + chunk_len h pos (suc n) ≤ cluster_size h)
chunk_len_bounds h pos n v =
    let sizes = cluster_size_bounds h v in
    let k : pos % cluster_size h < cluster_size h = mod-lt pos (omega (arith, sizes)) in
    (omega (arith, k), omega arith, omega (arith, k))

module _ {B : Type 0} (read : B → ℕ → ℕ → B × Reply (List ℕ)) (peek : B → ℕ → ℕ) (limit : B → ℕ)
    (Good : B → Type 0) (top : ℕ) (disk : IsDisk read peek limit Good) where
  read_loop-IsRead :
      {own : ℕ → Owner} (q : Qcow2File B) (fuel pos n : ℕ)
      → IsSound peek limit Good top own q
      → pos + n ≤ q.header.size
      → n ≤ fuel
      → IsRead peek limit Good top own q
          (read_loop read fuel pos n)
          (load (guest_byte peek q) pos n)
  unfolding read_loop
  read_loop-IsRead q fuel pos zero s long enough = record {
    image = q;
    ends = refl;
    sound = s;
    same_header = refl;
    same_disk = λ x l. refl;
  }
  read_loop-IsRead q zero pos (suc n) s long enough = absurd (omega arith)
  read_loop-IsRead {own} q (suc fuel) pos (suc n) s long enough =
      let len = chunk_len q.header pos (suc n) in
      let (some_byte, part, room) = chunk_len_bounds q.header pos n s.laid.sized in
      let r =
        read_chunk-IsRead read peek limit Good top disk q pos len s (omega arith) (omega arith)
          room in
      let t =
        read_loop-IsRead r.image fuel (pos + len) (suc n - len) r.sound
          (rw r.same_header (omega arith)) (omega arith) in
      let split : len + (suc n - len) ≡ suc n = omega arith in
      let rest : load (guest_byte peek r.image) (pos + len) (suc n - len)
          ≡ load (guest_byte peek q) (pos + len) (suc n - len) =
        load_ext (guest_byte peek r.image) (guest_byte peek q) (pos + len) (suc n - len)
          (λ k l. r.same_disk (pos + len + k) (omega arith)) in
      record {
        image = t.image;
        ends =
            ap
              (λ p. after p λ bytes. λ q'.
                after (read_loop read fuel (pos + len) (suc n - len) q')
                  λ rest. λ q''. (q'', done (bytes ++ rest)))
              r.ends
            ∙ ap
                (λ p. after p λ rest. λ q''. (q'', done (load (guest_byte peek q) pos len ++ rest)))
                t.ends
            ∙ ap (λ bytes. (t.image, done bytes))
                (ap (λ rest. load (guest_byte peek q) pos len ++ rest) rest
                  ∙ sym (load-append (guest_byte peek q) pos len (suc n - len))
                  ∙ ap (λ m. load (guest_byte peek q) pos m) split);
        sound = t.sound;
        same_header = t.same_header ∙ r.same_header;
        same_disk = λ x l. t.same_disk x (rw r.same_header l) ∙ r.same_disk x l;
      }

  -- On a sound image (its L2 tables, refcount blocks and guest clusters do not overlap, the cache
  -- agrees with the file, and its backing file, if it has one, keeps the contract of a disk and can
  -- be read up to the image's whole virtual size), read_at of any range inside the virtual size
  -- succeeds with exactly the bytes of the guest's disk (those of the cluster's place in the file,
  -- or else of the backing file, or 0), and leaves a sound image with the same header and the same
  -- disk.
  pub read_at-IsRead :
      {own : ℕ → Owner} (q : Qcow2File B) (offset n : ℕ)
      → IsSound peek limit Good top own q
      → offset + n ≤ q.header.size
      → IsRead peek limit Good top own q (read_at read offset n) (load (guest_byte peek q) offset n)
  unfolding read_at
  read_at-IsRead {own} q offset n s long =
      let small : leb (2 ^ 64) (offset + n) ≡ false = ground (arith, s.laid.small) in
      let inside : leb (offset + n) q.header.size ≡ true = ground arith in
      let r = read_loop-IsRead q n offset n s long (omega arith) in
      let e : read_at read offset n q ≡ read_loop read n offset n q =
        rw (read_at, small, inside) refl in
      record {
        image = r.image;
        ends = e ∙ r.ends;
        sound = r.sound;
        same_header = r.same_header;
        same_disk = r.same_disk;
      }
