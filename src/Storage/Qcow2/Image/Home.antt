-- ===== src/Storage/Qcow2/Image/Home.antt =====
-- About storage/qcow2.rs: Qcow2File.
-- allocate_for: a cluster gets its place in the file.
use clone.Prelude.{
  ℕ, ap, ◌∙◌, ◌+◌, ◌-◌, ◌*◌, ◌/◌, ◌%◌, ◌^◌, ◌≤◌, ◌<◌, ◌≡◌, ◌≢◌, refl, sym, none, some, List, arith,
  ◌==◌, if◌then◌else◌,
}
use clone.Storage.Reply.{Reply, done, after}
use clone.Storage.Qcow2.Header.{cluster_size, l2_entries_per_table}
use clone.Storage.Qcow2.Image.{Qcow2File}
use clone.Storage.Qcow2.Image.Cluster.{l1_index, l2_index}
use clone.Storage.Qcow2.Image.Io.{fill_cluster}
use clone.Storage.Qcow2.Image.Sound.{Owner, cluster_size_bounds}
use clone.Storage.Qcow2.Image.View.{mapping}
use clone.Storage.Qcow2.Image.Disk.{backing_byte, guest_byte}
use clone.Storage.Qcow2.Image.Contract.{IsDisk, IsSound}
use clone.Storage.Qcow2.Image.Grow.{grow, IsGrown-IsLaid, IsGrown-IsCoherent}
use native.Mathlib.Decide.{dec_lt}
use native.Mathlib.Nat.{mod-lt, div-add-mod}
use clone.Storage.Qcow2.Image.{copied}
use clone.Storage.Qcow2.Image.Cluster.{set_l2_entry, host_of}
use clone.Storage.Qcow2.Image.Io.{allocate_for}
use clone.Storage.Qcow2.Image.Sound.{slot, table_offset}
use clone.Storage.Qcow2.Image.Disk.{IsMapped, mapping-IsMapped, guest_byte-mapping}
use clone.Storage.Qcow2.Image.Counted.{IsAllocated, alloc-IsAllocated}
use clone.Storage.Qcow2.Image.SetEntry.{cluster_of_indices, IsEntered}
use clone.Storage.Qcow2.Image.SetL2.{set_l2_entry-IsEntered}
use clone.Storage.Qcow2.Image.Fill.{IsFilled, fill-IsFilled, full-IsFilled}
use clone.Storage.Qcow2.Image.Allocate.{guest_byte_kept, guest_byte_grown}

module _ {B : Type 0} where
  pub mapping_same_cluster :
      (q : Qcow2File B) (x y : ℕ)
      → x / cluster_size q.header ≡ y / cluster_size q.header
      → mapping q x ≡ mapping q y
  unfolding mapping
  mapping_same_cluster q x y e =
      ap
        (λ d.
          let i = d / l2_entries_per_table q.header in
          if table_offset q i == 0
          then none
          else host_of (slot q i (d % l2_entries_per_table q.header)))
        e

module _ {B : Type 0} (read : B → ℕ → ℕ → B × Reply (List ℕ)) (peek : B → ℕ → ℕ) (limit : B → ℕ)
    (Good : B → Type 0) (top : ℕ) (disk : IsDisk read peek limit Good) where
  -- The operation ends well with the place of the cluster; the guest's disk is the same, but for
  -- the cluster itself where it will be written whole.
  pub record IsHome (own : ℕ → Owner) (q : Qcow2File B) (pos n : ℕ) : Type 0 where
    pub own_h : ℕ → Owner
    pub image_h : Qcow2File B
    pub ends_h : allocate_for read pos n q ≡ (image_h, done q.next_alloc_offset)
    pub sound_h : IsSound peek limit Good top own_h image_h
    pub header_h : image_h.header ≡ q.header
    pub short_h : image_h.next_alloc_offset ≤ q.next_alloc_offset + 4 * cluster_size q.header
    pub mapped_h : mapping image_h pos ≡ some q.next_alloc_offset
    pub others_h :
        (x : ℕ)
        → x < q.header.size
        → x / cluster_size q.header ≢ pos / cluster_size q.header
        → guest_byte peek image_h x ≡ guest_byte peek q x
    pub same_h :
        (x : ℕ)
        → x < q.header.size
        → n < cluster_size q.header
        → x / cluster_size q.header ≡ pos / cluster_size q.header
        → guest_byte peek image_h x ≡ guest_byte peek q x

  module _ {own : ℕ → Owner} (q : Qcow2File B) (pos n : ℕ) (s : IsSound peek limit Good top own q)
      (l : pos < q.header.size) (at : mapping q pos ≡ none)
      (room : q.next_alloc_offset + 4 * cluster_size q.header < 2 ^ 55)
      (padded : n < cluster_size q.header
        → pos - pos % cluster_size q.header + cluster_size q.header ≤ top) where
    abbrev off : ℕ
    off = q.next_alloc_offset

    allocated : IsAllocated own q (Owner.guest (l1_index q.header pos) (l2_index q.header pos))
    allocated =
        alloc-IsAllocated q (Owner.guest (l1_index q.header pos) (l2_index q.header pos)) s.laid
          (omega (arith, room))

    abbrev longer : Qcow2File B
    longer = grow q allocated.file_a allocated.table_a allocated.end_a

    longer-IsSound : IsSound peek limit Good top allocated.own_a longer
    longer-IsSound =
        let a = allocated in
        record {
          laid = IsGrown-IsLaid q a.file_a a.table_a a.end_a s.laid a.grown_a;
          coherent = IsGrown-IsCoherent q a.file_a a.table_a a.end_a s.laid a.grown_a s.coherent;
          backed = s.backed;
          reach = s.reach;
        }

    filled : IsFilled read peek limit Good top disk allocated.own_a longer pos off n
    filled = elim (dec_lt n (cluster_size q.header)) [
      | yes part ↦
          fill-IsFilled read peek limit Good top disk longer pos off n longer-IsSound (padded part)
            allocated.cluster_a part
      | no whole ↦
          full-IsFilled read peek limit Good top disk longer pos off n longer-IsSound (omega arith)
    ]

    abbrev ready : Qcow2File B
    ready = record longer { file = filled.file_f; backing = filled.back_f }

    entered :
        IsEntered allocated.own_a ready
          (set_l2_entry pos (copied off))
          pos
          off
          (2 * cluster_size q.header)
    entered =
        let sizes = cluster_size_bounds q.header s.laid.sized in
        set_l2_entry-IsEntered ready pos off filled.sound_f.laid filled.sound_f.coherent l
          s.laid.aligned (omega arith) (λ z. absurd (omega (arith, z, sizes, s.laid.begun)))
          allocated.cluster_a (omega (arith, allocated.short_a, room))

    ends_all : allocate_for read pos n q ≡ (entered.image_s, done off)
    unfolding allocate_for
    ends_all =
        ap {A = Qcow2File B × ℕ}
          (λ p.
            after (fill_cluster read pos n p.1 p.0)
              λ _ r. after (set_l2_entry pos (copied p.1) r) λ _ r. (r, done p.1))
          allocated.result_a
        ∙ ap (λ p. after p λ _ r. after (set_l2_entry pos (copied off) r) λ _ r. (r, done off))
            filled.ends_f
        ∙ ap (λ p. after p λ _ r. (r, done off)) entered.ends_s

    set-IsSound : IsSound peek limit Good top entered.own_s entered.image_s
    set-IsSound = record {
      laid = entered.laid_s;
      coherent = entered.coherent_s;
      backed = λ b e. filled.sound_f.backed b (sym entered.backing_s ∙ e);
      reach = rw entered.header_s s.reach;
    }

    -- A byte of another cluster, from the image before the entry was set.
    other_after :
        (x : ℕ)
        → x < q.header.size
        → x / cluster_size q.header ≢ pos / cluster_size q.header
        → guest_byte peek entered.image_s x ≡ guest_byte peek ready x
    other_after x lx other =
        guest_byte_kept peek ready entered.image_s x entered.header_s
          (ap (λ o. backing_byte peek o x) entered.backing_s) (entered.keeps_s x lx other)
          λ g atx.
            let m : IsMapped allocated.own_a ready x g =
              mapping-IsMapped ready x g filled.sound_f.laid lx atx in
            let sizes = cluster_size_bounds q.header s.laid.sized in
            let k : x % cluster_size q.header < cluster_size q.header =
              mod-lt x (omega (arith, sizes)) in
            entered.bytes_s (g + x % cluster_size q.header) (l1_index q.header x)
              (l2_index q.header x) (omega (arith, k, m.held.inside))
              (m.held.mine (x % cluster_size q.header) k)

    other_filled :
        (x : ℕ)
        → x < q.header.size
        → x / cluster_size q.header ≢ pos / cluster_size q.header
        → guest_byte peek ready x ≡ guest_byte peek longer x
    other_filled x lx other =
        guest_byte_kept peek longer ready x refl (filled.backing_f x (omega (arith, s.reach)))
          (filled.mapping_f x lx)
          λ g atx.
            let m : IsMapped allocated.own_a longer x g =
              mapping-IsMapped longer x g longer-IsSound.laid lx atx in
            let sizes = cluster_size_bounds q.header s.laid.sized in
            let k : x % cluster_size q.header < cluster_size q.header =
              mod-lt x (omega (arith, sizes)) in
            filled.others_f (g + x % cluster_size q.header) (omega (arith, k, m.held.inside))
              λ e. other (same_guest x (sym (m.held.mine (x % cluster_size q.header) k) ∙ e))
      where
        same_guest :
            (x : ℕ)
            → Owner.guest (l1_index q.header x) (l2_index q.header x)
              ≡ Owner.guest (l1_index q.header pos) (l2_index q.header pos)
            → x / cluster_size q.header ≡ pos / cluster_size q.header
        same_guest x e =
            let ei : l1_index q.header x ≡ l1_index q.header pos = cc in
            let ej : l2_index q.header x ≡ l2_index q.header pos = cc in
            cluster_of_indices q.header x pos ei ej

    same_filled :
        (x : ℕ)
        → x < q.header.size
        → n < cluster_size q.header
        → x / cluster_size q.header ≡ pos / cluster_size q.header
        → guest_byte peek entered.image_s x ≡ guest_byte peek q x
    same_filled x lx part same =
        let c = cluster_size q.header in
        let sizes = cluster_size_bounds q.header s.laid.sized in
        let k : x % c < c = mod-lt x (omega (arith, sizes)) in
        let px = div-add-mod x c in
        let pp = div-add-mod pos c in
        let times : c * (x / c) ≡ c * (pos / c) = ap (λ d. c * d) same in
        let place : pos - pos % c + x % c ≡ x = omega (arith, px, pp, times) in
        guest_byte-mapping peek entered.image_s x (some off) (entered.maps_s x lx same)
        ∙ ap (λ h. entered.image_s.file.content (off + x % cluster_size h)) entered.header_s
        ∙ entered.bytes_s (off + x % c) (l1_index q.header pos) (l2_index q.header pos)
            (omega (arith, allocated.cluster_a.inside, k)) (allocated.cluster_a.mine (x % c) k)
        ∙ filled.old_f part (x % c) k
        ∙ ap (backing_byte peek q.backing) place
        ∙ sym (guest_byte-mapping peek q x none (mapping_same_cluster q x pos same ∙ at))

    pub allocate_for-IsHome : IsHome own q pos n
    allocate_for-IsHome = record {
      own_h = entered.own_s;
      image_h = entered.image_s;
      ends_h = ends_all;
      sound_h = set-IsSound;
      header_h = entered.header_s;
      short_h = omega (arith, entered.short_s, allocated.short_a);
      mapped_h = entered.maps_s pos l refl;
      others_h = λ x lx other.
          other_after x lx other
          ∙ other_filled x lx other
          ∙ guest_byte_grown peek q allocated.file_a allocated.table_a allocated.end_a x s.laid
              allocated.grown_a lx;
      same_h = same_filled;
    }
