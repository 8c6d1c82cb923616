-- ===== src/Storage/Qcow2/Image/Chain.antt =====
-- About storage/qcow2.rs: Qcow2File.
-- A backing file, image or raw, over a disk is a disk: chains of overlays of any depth.
use clone.Prelude.{
  ℕ, ap, ap₂, ◌∙◌, ◌+◌, ◌-◌, ◌^◌, ◌≤◌, ◌<◌, ◌≡◌, refl, sym, inl, inr, List, ◌++◌, true, arith, leb,
  ltb, if◌then◌else◌, Bool-cases, replicate, min,
}
use clone.Memory.Store.{Store, load}
use clone.Storage.File.{DiskFile, read_exact}
use clone.Storage.Reply.{Reply, done}
use clone.Storage.Qcow2.Image.Backing.{
  BackingFile, qcow2, raw, read_raw, put_image, read_backing_file,
}
use clone.Storage.Qcow2.Image.Tables.{load_ext, load-append}
use clone.Storage.Qcow2.Image.Sound.{Owner}
use clone.Storage.Qcow2.Image.Disk.{guest_byte}
use clone.Storage.Qcow2.Image.Reads.{replicate-load}
use clone.Storage.Qcow2.Image.Contract.{IsServed, IsDisk, IsSound}
use clone.Storage.Qcow2.Image.ReadAt.{read_at-IsRead}

-- A raw file has zeros behind its size.
abbrev pub raw_byte : DiskFile → ℕ → Store
raw_byte f size x = if ltb x size then f.content x else 0

load-zeros :
    (f : DiskFile) (size offset n : ℕ)
    → size ≤ offset
    → replicate n 0 ≡ load (raw_byte f size) offset n
load-zeros f size offset n h =
    replicate-load n offset ∙ load_ext (λ x. 0) (raw_byte f size) offset n λ k l. ground arith

load-raw :
    (f : DiskFile) (size offset n : ℕ)
    → offset + n ≤ size
    → load f.content offset n ≡ load (raw_byte f size) offset n
load-raw f size offset n h = load_ext f.content (raw_byte f size) offset n λ k l. ground arith

pub read_raw-load :
    (f : DiskFile) (size offset n : ℕ)
    → size ≤ f.len
    → read_raw f size offset n ≡ done (load (raw_byte f size) offset n)
unfolding read_raw read_exact
read_raw-load f size offset n h = elim (Bool-cases (leb size offset)) [
  | inl behind ↦
      let le : size ≤ offset = ground arith in
      (let e : read_raw f size offset n ≡ done (replicate n 0) = rw (read_raw, behind) refl in e)
      ∙ ap done (load-zeros f size offset n le)
  | inr within ↦
      let m = min n (size - offset) in
      let lt : offset < size = ground arith in
      let inside : leb (offset + m) f.len ≡ true = ground arith in
      let e : read_raw f size offset n ≡ done (load f.content offset m ++ replicate (n - m) 0) =
        rw (read_raw, within, inside) refl in
      let zeros : replicate (n - m) 0 ≡ load (raw_byte f size) (offset + m) (n - m) =
        replicate-load (n - m) (offset + m)
        ∙ load_ext (λ x. 0) (raw_byte f size) (offset + m) (n - m) (λ k l. ground arith) in
      e
      ∙ ap done (
          ap₂ ◌++◌ (load-raw f size offset m (omega arith)) zeros
          ∙ sym (load-append (raw_byte f size) offset m (n - m))
          ∙ ap (load (raw_byte f size) offset) (omega arith))
]

module _ {B : Type 0} (read : B → ℕ → ℕ → B × Reply (List ℕ)) (peek : B → ℕ → ℕ) (limit : B → ℕ)
    (Good : B → Type 0) (disk : IsDisk read peek limit Good) where
  abbrev pub file_byte : BackingFile B → ℕ → ℕ
  file_byte (qcow2 q) = guest_byte peek q
  file_byte (raw f size) = raw_byte f size

  -- An image ends with its virtual disk; a raw file does not end.
  abbrev pub file_limit : BackingFile B → ℕ
  file_limit (qcow2 q) = q.header.size
  file_limit (raw f size) = 2 ^ 64

  abbrev pub GoodFile : BackingFile B → Type 0
  GoodFile (qcow2 q) = (own : ℕ → Owner) × (top : ℕ) × IsSound peek limit Good top own q
  GoodFile (raw f size) = size ≤ f.len

  -- If the backing files of a type keep the contract of a disk (a read below the limit succeeds
  -- with the disk's bytes, and leaves the disk good and the same), then so do the backing files
  -- over them, whether a sound qcow2 image, with its virtual size as limit, or a raw file that has
  -- at least its size, with zeros behind: chains of overlays of any depth read as one disk.
  pub read_backing_file-IsDisk : IsDisk (read_backing_file read) file_byte file_limit GoodFile
  unfolding read_backing_file
  read_backing_file-IsDisk = record { serves = serve }
    where
      serve :
          (b : BackingFile B) (pos n : ℕ)
          → GoodFile b
          → pos + n ≤ file_limit b
          → IsServed (read_backing_file read) file_byte file_limit GoodFile b pos n
      serve (qcow2 q) pos n (own, top, s) l =
          let r = read_at-IsRead read peek limit Good top disk q pos n s l in
          record {
            state = qcow2 r.image;
            answers = ap (put_image read) r.ends;
            good = (own, top, r.sound);
            same_limit = ap (λ h. h.size) r.same_header;
            same_bytes = r.same_disk;
          }
      serve (raw f size) pos n g l = record {
        state = raw f size;
        answers = ap (λ r. (raw f size, r)) (read_raw-load f size pos n g);
        good = g;
        same_limit = refl;
        same_bytes = λ x lx. refl;
      }
