-- ===== src/Storage/Qcow2/Image/Open.antt =====
-- storage/qcow2.rs: Qcow2File::open. `open_backing` opens the backing file that a path names.
use clone.Prelude.{ℕ, ◌*◌, ◌/◌, Option, none, some, List, [], ◌==◌, ◌||◌, if◌then◌else◌}
use clone.Storage.File.{DiskFile, read_exact}
use clone.Storage.Qcow2.Header.{Qcow2Header, cluster_size, read_from}
use clone.Storage.Qcow2.Layout.{align_up}
use clone.Storage.Qcow2.Image.{Qcow2File, read_table}

module _ {B : Type 0} where
  -- The header's backing file, opened by its path with `open_backing`; the outer `none` is an error.
  unfoldable pub backing_of : DiskFile → Qcow2Header → (List ℕ → Option B) → Option (Option B)
  backing_of f header open_backing =
      if header.backing_file_offset == 0 || header.backing_file_size == 0
      then some none
      else elim (read_exact f header.backing_file_offset header.backing_file_size) [
        | none ↦ none
        | some path ↦ elim (open_backing path) [ none ↦ none | some b ↦ some (some b) ]
      ]

  abbrev pub opened : DiskFile → Qcow2Header → List ℕ → List ℕ → Option B → Qcow2File B
  opened f header l1_table refcount_table backing = record {
    file = f;
    header = header;
    l1_table = l1_table;
    refcount_table = refcount_table;
    l2_cache = [];
    access_counter = 0;
    next_alloc_offset = align_up f.len (cluster_size header);
    backing = backing;
  }

  -- The file at the path, as it is read; `none` is an error.
  unfoldable pub open_image : DiskFile → (List ℕ → Option B) → Option (Qcow2File B)
  unfolding backing_of
  open_image f open_backing = elim (read_from f) [
    | none ↦ none
    | some header ↦ elim (read_table f header.l1_table_offset header.l1_size) [
      | none ↦ none
      | some l1 ↦
          elim (read_table f header.refcount_table_offset
            (header.refcount_table_clusters * cluster_size header / 8)) [
              | none ↦ none
              | some rc ↦ elim (backing_of f header open_backing) [
                | none ↦ none
                | some backing ↦ some (opened f header l1 rc backing)
              ]
            ]
    ]
  ]
