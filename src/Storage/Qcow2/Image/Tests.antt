-- ===== src/Storage/Qcow2/Image/Tests.antt =====
-- About storage/qcow2.rs: Qcow2File.
-- An image of 32 KiB with nothing allocated, over a raw file.
use clone.Prelude.{
  ℕ, ap, ◌+◌, ◌*◌, ◌%◌, ◌^◌, ◌≤◌, ◌≡◌, ◌≢◌, refl, sym, subst, Option, none, some, List, [], ◌∷◌,
  arith, zero, suc, ◌∙◌, ltb, if◌then◌else◌,
}
use clone.Memory.Store.{load}
use clone.Storage.File.{DiskFile}
use clone.Storage.Reply.{Reply, done, failed, error}
use clone.Storage.Qcow2.Header.{Qcow2Header, cluster_size, l2_entries_per_table}
use clone.Storage.Qcow2.Image.{Qcow2File, l2_offset, ensure_l2_cached, find}
use clone.Storage.Qcow2.Image.Io.{read_at, write_at, write_chunk}
use clone.Storage.Qcow2.Image.Backing.{BackingFile, qcow2, read_raw, read_backing_file}
use clone.Storage.Qcow2.Image.Sound.{Owner, other, Holds, slot, table_offset, IsLaid, IsCoherent}
use clone.Storage.Qcow2.Image.Tables.{number_at}
use clone.Storage.Qcow2.Image.Disk.{guest_byte}
use clone.Storage.Qcow2.Image.Contract.{IsDisk, IsSound, IsRead}
use clone.Storage.Qcow2.Image.Ensure.{IsEnsured, ensure-IsEnsured}
use clone.Storage.Qcow2.Image.ReadAt.{read_at-IsRead}
use clone.Storage.Qcow2.Image.Chain.{
  raw_byte, read_raw-load, file_byte, file_limit, GoodFile, read_backing_file-IsDisk,
}
use clone.Storage.Qcow2.Image.View.{mapping}
use clone.Storage.Qcow2.Image.Partial.{partial_write_fails}
use clone.Storage.Qcow2.Image.Writing.{IsWrite}
use clone.Storage.Qcow2.Image.WriteAt.{IsPadded, write_at-IsWrite, read_back_written}

-- The raw file, with its size.
abbrev BaseDisk : Type 0
BaseDisk = DiskFile × ℕ

abbrev read_base : BaseDisk → ℕ → ℕ → BaseDisk × Reply (List ℕ)
read_base b pos n = (b, read_raw b.0 b.1 pos n)

abbrev base_byte : BaseDisk → ℕ → ℕ
base_byte b = raw_byte b.0 b.1

abbrev base_limit : BaseDisk → ℕ
base_limit b = 2 ^ 64

abbrev GoodBase : BaseDisk → Type 0
GoodBase b = b.1 ≤ b.0.len

base-IsDisk : IsDisk read_base base_byte base_limit GoodBase
base-IsDisk = record {
  serves = λ b pos n g l. record {
    state = b;
    answers = ap (λ r. (b, r)) (read_raw-load b.0 b.1 pos n g);
    good = g;
    same_limit = refl;
    same_bytes = λ x lx. refl;
  };
}

abbrev base : BaseDisk
base = (record { content = λ x. x % 251; len = 32768 }, 32768)

abbrev header_of : ℕ → Qcow2Header
header_of size = record {
  magic = 1363560955;
  version = 3;
  backing_file_offset = 104;
  backing_file_size = 8;
  cluster_bits = 9;
  size = size;
  crypt_method = 0;
  l1_size = 1;
  l1_table_offset = 1536;
  refcount_table_offset = 512;
  refcount_table_clusters = 1;
  nb_snapshots = 0;
  snapshots_offset = 0;
  incompatible_features = 0;
  compatible_features = 0;
  autoclear_features = 0;
  refcount_order = 4;
  header_length = 104;
}

abbrev small_header : Qcow2Header
small_header = header_of 32768

-- Nothing is allocated but four clusters of metadata.
abbrev blank : {B : Type 0} → ℕ → Option B → Qcow2File B
blank size back = record {
  file = record { content = λ x. 0; len = 2048 };
  header = header_of size;
  l1_table = 0 ∷ [];
  refcount_table = [];
  l2_cache = [];
  access_counter = 0;
  next_alloc_offset = 2048;
  backing = back;
}

abbrev image : Qcow2File BaseDisk
image = blank 32768 (some base)

abbrev nothing_owned : ℕ → Owner
nothing_owned x = other

module _ {B : Type 0} (size : ℕ) (back : Option B) where
  no_table : (i : ℕ) → table_offset (blank size back) i ≡ 0
  no_table zero = refl
  no_table (suc i) = refl

  blank-IsLaid : size ≤ 32768 → IsLaid nothing_owned (blank size back)
  unfolding cluster_size l2_entries_per_table
  blank-IsLaid h = record {
    sized = record { bits_low = omega arith; bits_high = omega arith };
    l1_len = refl;
    l1_small = omega arith;
    small = omega arith;
    covers = omega arith;
    whole = refl;
    aligned = refl;
    begun = omega arith;
    tables = λ i p. absurd (p (no_table i));
    blocks = λ j p. absurd (p refl);
    fits = λ i j p l. absurd (p (no_table i));
    plain = λ i j p l. absurd (p (no_table i));
    guests = λ i j p l z. absurd (p (no_table i));
  }

  blank-IsCoherent : IsCoherent (blank size back)
  unfolding find
  blank-IsCoherent i e h = absurd (ne h)
    where
      ne : none ≢ some e
      ne x = cc

image-IsLaid : IsLaid nothing_owned image
image-IsLaid = blank-IsLaid 32768 (some base) (omega arith)

image-IsCoherent : IsCoherent image
image-IsCoherent = blank-IsCoherent 32768 (some base)

abbrev top : ℕ
top = 2 ^ 64

image-IsSound : IsSound base_byte base_limit GoodBase top nothing_owned image
image-IsSound = record {
  laid = image-IsLaid;
  coherent = image-IsCoherent;
  backed =
      λ b e. subst (λ b. GoodBase b × (top ≤ base_limit b)) (same e) (omega arith, omega arith);
  reach = omega arith;
}
  where
    same : {b : BaseDisk} → some base ≡ some b → base ≡ b
    same e = cc

image-IsPadded : IsPadded small_header top
unfolding cluster_size
image-IsPadded x l = omega arith

-- The same image with one L2 table, all zeros, which is not in the cache.
abbrev tabled : Qcow2File BaseDisk
tabled = record image { l1_table = (2 ^ 63 + 1024) ∷ [] }

abbrev one_table_owned : ℕ → Owner
one_table_owned x = if ltb x 1024 then other else if ltb x 1536 then Owner.table 0 else other

tabled-slot : (j : ℕ) → slot tabled 0 j ≡ 0
unfolding slot number_at find
tabled-slot j = refl

only_table : (i : ℕ) → table_offset tabled i ≢ 0 → i ≡ 0
only_table zero p = refl
only_table (suc i) p = absurd (p refl)

tabled_zero : (i j : ℕ) → table_offset tabled i ≢ 0 → slot tabled i j ≡ 0
tabled_zero i j p = ap (λ i. slot tabled i j) (only_table i p) ∙ tabled-slot j

tabled-IsLaid : IsLaid one_table_owned tabled
unfolding cluster_size l2_entries_per_table
tabled-IsLaid = record {
  sized = record { bits_low = omega arith; bits_high = omega arith };
  l1_len = refl;
  l1_small = omega arith;
  small = omega arith;
  covers = omega arith;
  whole = refl;
  aligned = refl;
  begun = omega arith;
  tables = λ i p.
      subst (λ i. Holds one_table_owned tabled (table_offset tabled i) (Owner.table i))
        (sym (only_table i p)) (record { inside = omega arith; mine = λ k l. ground arith });
  blocks = λ j p. absurd (p refl);
  fits = λ i j p l. rw (tabled_zero i j p) (omega arith);
  plain = λ i j p l. rw (tabled_zero i j p) (ground arith);
  guests = λ i j p l z. absurd (z (ap (λ x. l2_offset x) (tabled_zero i j p)));
}

tabled-IsCoherent : IsCoherent tabled
unfolding find
tabled-IsCoherent i e h = absurd (ne h)
  where
    ne : none ≢ some e
    ne x = cc

tabled-IsSound : IsSound base_byte base_limit GoodBase top one_table_owned tabled
tabled-IsSound = record {
  laid = tabled-IsLaid;
  coherent = tabled-IsCoherent;
  backed =
      λ b e. subst (λ b. GoodBase b × (top ≤ base_limit b)) (same e) (omega arith, omega arith);
  reach = omega arith;
}
  where
    same : {b : BaseDisk} → some base ≡ some b → base ≡ b
    same e = cc

ensure-IsEnsured_example :
    IsEnsured one_table_owned tabled (ensure_l2_cached 0 (table_offset tabled 0)) 0
ensure-IsEnsured_example =
    ensure-IsEnsured tabled 0 tabled-IsLaid tabled-IsCoherent (λ z. absurd (omega (arith, z)))

abbrev hello : List ℕ
hello = 104 ∷ 101 ∷ 108 ∷ 108 ∷ 111 ∷ []

write_at-IsWrite_example :
    IsWrite read_base base_byte base_limit GoodBase top base-IsDisk nothing_owned image
      (write_at read_base 1022 hello)
      1022
      hello
      (5 * 2 ^ 23)
write_at-IsWrite_example =
    write_at-IsWrite read_base base_byte base_limit GoodBase top base-IsDisk image 1022 hello
      image-IsSound image-IsPadded (omega arith) (omega arith)

read_back_written_example :
    (r : Qcow2File BaseDisk) × (r' : Qcow2File BaseDisk) × (write_at read_base 1022 hello image
      ≡ (r, done tt))
    × (read_at read_base 1022 5 r ≡ (r', done hello))
read_back_written_example =
    read_back_written read_base base_byte base_limit GoodBase top base-IsDisk image 1022 hello
      image-IsSound image-IsPadded (omega arith) (omega arith)

read_at-IsRead_example :
    IsRead base_byte base_limit GoodBase top one_table_owned tabled
      (read_at read_base 1020 9)
      (load (guest_byte base_byte tabled) 1020 9)
read_at-IsRead_example =
    read_at-IsRead read_base base_byte base_limit GoodBase top base-IsDisk tabled 1020 9
      tabled-IsSound (omega arith)

read_backing_file-IsDisk_example :
    IsDisk
      (read_backing_file read_base)
      (file_byte read_base base_byte base_limit GoodBase base-IsDisk)
      (file_limit read_base base_byte base_limit GoodBase base-IsDisk)
      (GoodFile read_base base_byte base_limit GoodBase base-IsDisk)
read_backing_file-IsDisk_example =
    read_backing_file-IsDisk read_base base_byte base_limit GoodBase base-IsDisk

-- An overlay of 1000 bytes over an image of 1000 bytes.
abbrev overlay : Qcow2File (BackingFile BaseDisk)
overlay = blank 1000 (some (qcow2 (blank 1000 none)))

partial_write_fails_example :
    (r : Qcow2File (BackingFile BaseDisk)) × (write_chunk
        (read_backing_file read_base)
        600
        hello
        overlay
      ≡ (r, failed error))
    × (2048 + 512 ≤ r.next_alloc_offset)
    × (2048 + 512 ≤ r.file.len)
unfolding cluster_size l2_entries_per_table mapping
partial_write_fails_example =
    partial_write_fails read_base overlay (blank 1000 none) 600 hello
      (blank-IsLaid 1000 (some (qcow2 (blank 1000 none))) (omega arith))
      (blank-IsCoherent 1000 (some (qcow2 (blank 1000 none)))) (omega arith) refl refl (omega arith)
      (omega arith) (omega arith)
