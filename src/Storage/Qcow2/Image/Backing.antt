-- ===== src/Storage/Qcow2/Image/Backing.antt =====
-- storage/qcow2.rs: BackingFile, another image or a raw file, and its reads.
use clone.Prelude.{ℕ, ◌-◌, none, some, List, ◌++◌, leb, if◌then◌else◌, min, replicate}
use clone.Storage.File.{DiskFile, read_exact}
use clone.Storage.Reply.{Reply, error, done, failed}
use clone.Storage.Qcow2.Image.{Qcow2File}
use clone.Storage.Qcow2.Image.Io.{read_at}

pub data BackingFile (B : Type 0) : Type 0 where
  qcow2 : Qcow2File B → BackingFile B
  raw : DiskFile → ℕ → BackingFile B

-- The file, read up to its size, and zeros behind.
unfoldable pub read_raw : DiskFile → ℕ → ℕ → ℕ → Reply (List ℕ)
read_raw f size offset n =
    if leb size offset
    then done (replicate n 0)
    else (let readable = min n (size - offset) in
        elim (read_exact f offset readable) [
          | none ↦ failed error
          | some bytes ↦ done (bytes ++ replicate (n - readable) 0)
        ])

module _ {B : Type 0} (read_backing : B → ℕ → ℕ → B × Reply (List ℕ)) where
  abbrev pub put_image : Qcow2File B × Reply (List ℕ) → BackingFile B × Reply (List ℕ)
  put_image (q, r) = (qcow2 q, r)

  unfoldable pub read_backing_file : BackingFile B → ℕ → ℕ → BackingFile B × Reply (List ℕ)
  unfolding read_raw
  read_backing_file (qcow2 q) offset n = put_image (read_at read_backing offset n q)
  read_backing_file (raw f size) offset n = (raw f size, read_raw f size offset n)
