-- ===== src/Storage/Qcow2/Image/SetL2.antt =====
-- About storage/qcow2.rs: Qcow2File.
-- set_l2_entry on a sound image, with a table and without.
use clone.Prelude.{
  ℕ, ap, ◌∙◌, ◌+◌, ◌*◌, ◌%◌, ◌^◌, ◌<◌, ◌≡◌, ◌≢◌, refl, sym, true, false, arith, length, length-set,
  get_or, set, replicate, ◌==◌,
}
use native.Mathlib.Decide.{ℕ_discrete}
use clone.Storage.Reply.{after, done}
use clone.Storage.Qcow2.Header.{cluster_size, l2_entries_per_table}
use clone.Storage.Qcow2.Image.{
  Qcow2File, L2CacheEntry, l1_offset, copied, insert, admit, ensure_l2_cached,
}
use clone.Storage.Qcow2.Image.Cluster.{
  l1_index, l2_index, host_of, new_l2_table, ensure_l2_table, set_cached, set_l2_entry,
}
use clone.Storage.Qcow2.Image.Assoc.{find-insert}
use clone.Storage.Qcow2.Image.Alloc.{get_or-set_self}
use clone.Storage.Qcow2.Image.Sound.{
  Owner, block, cluster_size_bounds, Holds, table_offset, IsLaid, IsCoherent,
}
use clone.Storage.Qcow2.Image.Same.{change, IsSame-IsLaid}
use clone.Storage.Qcow2.Image.Ensure.{ensure-IsEnsured}
use clone.Storage.Qcow2.Image.View.{index_bounds, mapping, mapping-absent, l1_entry_at}
use clone.Storage.Qcow2.Image.Disk.{mapping-change}
use clone.Storage.Qcow2.Image.Grow.{grow, IsGrown-IsLaid, IsGrown-IsCoherent}
use clone.Storage.Qcow2.Image.Counted.{IsAllocated, alloc-IsAllocated}
use clone.Storage.Qcow2.Image.Put.{put, IsPut, after_put, IsPut-IsLaid, IsPut-IsCoherent}
use clone.Storage.Qcow2.Image.Entries.{
  zeros-IsTable, get_or-set_ne, get_or-replicate, l1_offset-copied,
}
use clone.Storage.Qcow2.Image.SetEntry.{mapping_put_here, mapping_put_ne, IsEntered}
use clone.Storage.Qcow2.Image.Entered.{set_cached-IsEntered}
use clone.Storage.Qcow2.Image.Grow.{Owns-grown, mapping_grown}

module _ {B : Type 0} where
  set_step :
      {own : ℕ → Owner} (q : Qcow2File B) (pos value : ℕ)
      → IsLaid own q
      → pos < q.header.size
      → set_l2_entry pos value q
        ≡ after
            (ensure_l2_table
              (l1_index q.header pos)
              (get_or q.l1_table (l1_index q.header pos) 0)
              q)
            (λ _. set_cached (l1_index q.header pos) (l2_index q.header pos) value)
  unfolding set_l2_entry
  set_step q pos value v l =
      let (mod32, inside, entry) = l1_entry_at q pos v l in
      let i = l1_index q.header pos in
      (let s : set_l2_entry pos value q
            ≡ after (ensure_l2_table i (get_or q.l1_table i 0) q)
                (λ _. set_cached (i % 2 ^ 32) (l2_index q.header pos) value) =
          rw (set_l2_entry, entry) refl in
        s)
      ∙ ap
          (λ k.
            after (ensure_l2_table i (get_or q.l1_table i 0) q)
              (λ _. set_cached k (l2_index q.header pos) value))
          mod32

  -- The table is there.
  table_step :
      {own : ℕ → Owner} (q : Qcow2File B) (pos value : ℕ)
      → IsLaid own q
      → pos < q.header.size
      → table_offset q (l1_index q.header pos) ≢ 0
      → set_l2_entry pos value q
        ≡ after
            (ensure_l2_cached (l1_index q.header pos) (table_offset q (l1_index q.header pos)) q)
            (λ _. set_cached (l1_index q.header pos) (l2_index q.header pos) value)
  table_step q pos value v l p =
      let (mod32, inside, entry) = l1_entry_at q pos v l in
      let there : (table_offset q (l1_index q.header pos) == 0) ≡ false = ground arith in
      let i = l1_index q.header pos in
      set_step q pos value v l
      ∙ ap (λ t. after t λ _. set_cached i (l2_index q.header pos) value)
          ((let s : ensure_l2_table i (get_or q.l1_table i 0) q
                  ≡ ensure_l2_cached (i % 2 ^ 32) (table_offset q i) q =
                rw (ensure_l2_table, there) refl in
              s)
            ∙ ap (λ k. ensure_l2_cached k (table_offset q i) q) mod32)

  with_table-IsEntered :
      {own : ℕ → Owner} (q : Qcow2File B) (pos host : ℕ)
      → IsLaid own q
      → IsCoherent q
      → pos < q.header.size
      → host % 512 ≡ 0
      → host < 2 ^ 55
      → host ≢ 0
      → Holds own q host (Owner.guest (l1_index q.header pos) (l2_index q.header pos))
      → table_offset q (l1_index q.header pos) ≢ 0
      → IsEntered own q (set_l2_entry pos (copied host)) pos host (2 * cluster_size q.header)
  with_table-IsEntered {own} q pos host v h l even small nz o p =
      let i = l1_index q.header pos in
      let j = l2_index q.header pos in
      let r = ensure-IsEnsured q i v h p in
      let q' = change q r.file_end r.cache_end r.count_end in
      let s =
        set_cached-IsEntered q' pos host r.entry_end (IsSame-IsLaid v r.same_end)
          r.same_end.coherent l r.found_end even small nz o in
      record {
        own_s = s.own_s;
        image_s = s.image_s;
        ends_s =
            table_step q pos (copied host) v l p
            ∙ ap (λ t. after t λ _. set_cached i j (copied host)) r.ends_well
            ∙ s.ends_s;
        laid_s = s.laid_s;
        coherent_s = s.coherent_s;
        header_s = s.header_s;
        backing_s = s.backing_s;
        forward_s = s.forward_s;
        short_s = omega (arith, s.short_s);
        own_same_s = s.own_same_s;
        bytes_s = λ x k m lx g. s.bytes_s x k m lx g ∙ r.same_end.bytes x k m (rw v.whole lx) g;
        maps_s = s.maps_s;
        keeps_s = λ x lx other.
            s.keeps_s x lx other
            ∙ mapping-change q x r.file_end r.cache_end r.count_end v r.same_end lx;
      }

  -- There is no table yet.
  no_table_step :
      {own : ℕ → Owner} (q : Qcow2File B) (pos value : ℕ)
      → IsLaid own q
      → pos < q.header.size
      → table_offset q (l1_index q.header pos) ≡ 0
      → set_l2_entry pos value q
        ≡ set_cached
            (l1_index q.header pos)
            (l2_index q.header pos)
            value
            (new_l2_table (l1_index q.header pos) q)
  no_table_step q pos value v l z =
      let i = l1_index q.header pos in
      let absent : (table_offset q (l1_index q.header pos) == 0) ≡ true = ground arith in
      set_step q pos value v l
      ∙ ap (λ t. after t λ _. set_cached i (l2_index q.header pos) value)
          (let s : ensure_l2_table i (get_or q.l1_table i 0) q ≡ (new_l2_table i q, done tt) =
              rw (ensure_l2_table, absent) refl in
            s)

  abbrev empty_table : Qcow2File B → ℕ → L2CacheEntry
  empty_table q now = record {
    entries = replicate (l2_entries_per_table q.header) 0;
    dirty = true;
    host_offset = q.next_alloc_offset;
    last_access = now;
  }

  abbrev now_of : Qcow2File B → ℕ
  now_of q = (q.access_counter + 1) % 2 ^ 64

  new_l2_table_step :
      {own : ℕ → Owner} (q : Qcow2File B) (i : ℕ) (u : Owner) (a : IsAllocated own q u)
      → i % 2 ^ 32 ≡ i
      → new_l2_table i q
        ≡ put
            (grow q a.file_a a.table_a a.end_a)
            (set q.l1_table i (copied q.next_alloc_offset))
            (insert i (empty_table q (now_of q)) q.l2_cache)
            (now_of q)
  unfolding new_l2_table
  new_l2_table_step q i u a small =
      ap {A = Qcow2File B × ℕ}
        (λ p.
          admit (i % 2 ^ 32) (replicate (l2_entries_per_table q.header) 0) true p.1
            (record p.0 { l1_table = set p.0.l1_table i (copied p.1) }))
        a.result_a
      ∙ ap
          (λ k.
            put (grow q a.file_a a.table_a a.end_a) (set q.l1_table i (copied q.next_alloc_offset))
              (insert k (empty_table q (now_of q)) q.l2_cache) (now_of q))
          small

  new-IsPut :
      {own : ℕ → Owner} (q : Qcow2File B) (i : ℕ)
      → IsLaid own q
      → i < length q.l1_table
      → q.next_alloc_offset < 2 ^ 55
      → (a : IsAllocated own q (Owner.table i))
      → IsPut a.own_a
          (grow q a.file_a a.table_a a.end_a)
          (set q.l1_table i (copied q.next_alloc_offset))
          i
          (empty_table q (now_of q))
  new-IsPut {own} q i v inside small a =
      let off = q.next_alloc_offset in
      let t = zeros-IsTable a.own_a (grow q a.file_a a.table_a a.end_a) i in
      let sizes = cluster_size_bounds q.header v.sized in
      record {
        same_length = length-set q.l1_table i (copied off);
        elsewhere = λ k ne. get_or-set_ne q.l1_table i (copied off) k ne;
        place = sym (
            ap (λ e. l1_offset e) (get_or-set_self q.l1_table i (copied off) inside)
            ∙ l1_offset-copied off v.aligned small);
        place_held = (λ z. absurd (omega (arith, v.begun, sizes, z)), a.cluster_a);
        dirty_e = refl;
        full_e = t.full_t;
        all64_e = t.all64_t;
        plain_e = t.plain_t;
        guests_e = t.guests_t;
      }

  -- Where there is no table, no cluster is mapped, before and after.
  mapping_new_table :
      {own : ℕ → Owner} (q : Qcow2File B) (i x : ℕ) (v : IsLaid own q)
      (a : IsAllocated own q (Owner.table i))
      (w : IsPut a.own_a
        (grow q a.file_a a.table_a a.end_a)
        (set q.l1_table i (copied q.next_alloc_offset))
        i
        (empty_table q (now_of q)))
      → x < q.header.size
      → table_offset q i ≡ 0
      → mapping
          (after_put
            (grow q a.file_a a.table_a a.end_a)
            (set q.l1_table i (copied q.next_alloc_offset))
            i
            (now_of q)
            (empty_table q (now_of q))
            w)
          x
        ≡ mapping q x
  mapping_new_table {own} q i x v a w l z =
      let g = grow q a.file_a a.table_a a.end_a in
      let l1 = set q.l1_table i (copied q.next_alloc_offset) in
      let e = empty_table q (now_of q) in
      elim (ℕ_discrete i (l1_index q.header x)) [
        | yes eq ↦
            mapping_put_here g l1 i (now_of q) e w x (sym eq)
            ∙ ap (λ s. host_of s)
                (get_or-replicate (l2_entries_per_table q.header) (l2_index q.header x))
            ∙ sym (mapping-absent q x (ap (table_offset q) (sym eq) ∙ z))
        | no ne ↦
            mapping_put_ne g l1 i (now_of q) e w x ne
            ∙ mapping_grown q a.file_a a.table_a a.end_a x v a.grown_a l
      ]

  no_table-IsEntered :
      {own : ℕ → Owner} (q : Qcow2File B) (pos host : ℕ)
      → IsLaid own q
      → IsCoherent q
      → pos < q.header.size
      → host % 512 ≡ 0
      → host < 2 ^ 55
      → host ≢ 0
      → Holds own q host (Owner.guest (l1_index q.header pos) (l2_index q.header pos))
      → q.next_alloc_offset + 2 * cluster_size q.header < 2 ^ 55
      → table_offset q (l1_index q.header pos) ≡ 0
      → IsEntered own q (set_l2_entry pos (copied host)) pos host (2 * cluster_size q.header)
  no_table-IsEntered {own} q pos host v h l even small nz o room z =
      let i = l1_index q.header pos in
      let j = l2_index q.header pos in
      let (mod32, _, _) = l1_entry_at q pos v l in
      let bounds = index_bounds q.header pos v.sized v.covers l in
      let inside : i < length q.l1_table = omega (arith, bounds.0, v.l1_len) in
      let a = alloc-IsAllocated q (Owner.table i) v (omega arith) in
      let g = grow q a.file_a a.table_a a.end_a in
      let l1 = set q.l1_table i (copied q.next_alloc_offset) in
      let e = empty_table q (now_of q) in
      let w = new-IsPut q i v inside (omega arith) a in
      let q' = put g l1 (insert i e q.l2_cache) (now_of q) in
      let v' =
        IsPut-IsLaid g l1 i (now_of q) e w
          (IsGrown-IsLaid q a.file_a a.table_a a.end_a v a.grown_a) in
      let h' =
        IsPut-IsCoherent g l1 i (now_of q) e w
          (IsGrown-IsCoherent q a.file_a a.table_a a.end_a v a.grown_a h) in
      let o' =
        Owns-grown q a.file_a a.table_a a.end_a (cluster_size q.header) host (Owner.guest i j)
          a.grown_a o in
      let s =
        set_cached-IsEntered q' pos host e v' h' l (find-insert i i e q.l2_cache ∙ ground arith)
          even small nz o' in
      let forward = a.grown_a.forward in
      record {
        own_s = s.own_s;
        image_s = s.image_s;
        ends_s =
            no_table_step q pos (copied host) v l z
            ∙ ap (λ r. set_cached i j (copied host) r)
                (new_l2_table_step q i (Owner.table i) a mod32)
            ∙ s.ends_s;
        laid_s = s.laid_s;
        coherent_s = s.coherent_s;
        header_s = s.header_s;
        backing_s = s.backing_s;
        forward_s = omega (arith, s.forward_s, forward);
        short_s = omega (arith, s.short_s, a.short_a);
        own_same_s = λ x lx. s.own_same_s x (omega (arith, forward)) ∙ a.grown_a.same_own x lx;
        bytes_s = λ x k m lx ow.
            s.bytes_s x k m (omega (arith, forward)) (a.grown_a.same_own x lx ∙ ow)
            ∙ a.grown_a.same_bytes x lx (λ b. guest_ne k m (sym ow ∙ b));
        maps_s = s.maps_s;
        keeps_s = λ x lx other. s.keeps_s x lx other ∙ mapping_new_table q i x v a w lx z;
      }
    where
      guest_ne : (k m : ℕ) → Owner.guest k m ≢ block
      guest_ne k m b = cc

  pub set_l2_entry-IsEntered :
      {own : ℕ → Owner} (q : Qcow2File B) (pos host : ℕ)
      → IsLaid own q
      → IsCoherent q
      → pos < q.header.size
      → host % 512 ≡ 0
      → host < 2 ^ 55
      → host ≢ 0
      → Holds own q host (Owner.guest (l1_index q.header pos) (l2_index q.header pos))
      → q.next_alloc_offset + 2 * cluster_size q.header < 2 ^ 55
      → IsEntered own q (set_l2_entry pos (copied host)) pos host (2 * cluster_size q.header)
  set_l2_entry-IsEntered q pos host v h l even small nz o room =
      elim (ℕ_discrete (table_offset q (l1_index q.header pos)) 0) [
        | yes z ↦ no_table-IsEntered q pos host v h l even small nz o room z
        | no p ↦ with_table-IsEntered q pos host v h l even small nz o p
      ]
