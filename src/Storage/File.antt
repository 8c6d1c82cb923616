-- ===== src/Storage/File.antt =====
-- A disk file as src/storage uses std::fs::File: seek and read_exact, seek and write_all, set_len.
-- The disk does not fail: the one error is a read past the end.
use clone.Prelude.{ℕ, ◌+◌, Option, none, some, List, ltb, leb, if◌then◌else◌, length, max}
use clone.Memory.Store.{Store, load, store}

pub record DiskFile : Type 0 where
  pub content : Store
  pub len : ℕ

-- Nothing stands behind the end.
abbrev pub cut : DiskFile → Store
cut f j = if ltb j f.len then f.content j else 0

abbrev pub empty : DiskFile
empty = record { content = λ j. 0; len = 0 }

unfoldable pub read_exact : DiskFile → ℕ → ℕ → Option (List ℕ)
read_exact f offset n = if leb (offset + n) f.len then some (load f.content offset n) else none

-- A write behind the end leaves zeros between.
unfoldable pub write_all : DiskFile → ℕ → List ℕ → DiskFile
write_all f offset bytes = record {
  content = store (cut f) offset bytes;
  len = max f.len (offset + length bytes);
}

unfoldable pub set_len : DiskFile → ℕ → DiskFile
set_len f n = record { content = cut f; len = n }
