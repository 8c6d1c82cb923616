-- ===== src/Storage/Qcow2/Image/Disk.antt =====
-- About storage/qcow2.rs: Qcow2File.
-- The disk that the guest sees, byte by byte, whatever is in the cache.
use clone.Prelude.{
  ℕ, ap, ◌∙◌, ◌+◌, ◌%◌, ◌<◌, ◌≡◌, ◌≢◌, sym, subst, inl, inr, Option, none, some, arith,
  Option-cases,
}
use native.Mathlib.Nat.{mod-lt}
use native.Mathlib.Decide.{ℕ_discrete}
use clone.Memory.Store.{Store}
use clone.Storage.File.{DiskFile}
use clone.Storage.Qcow2.Header.{cluster_size}
use clone.Storage.Qcow2.Image.{Qcow2File, Cache, l2_offset}
use clone.Storage.Qcow2.Image.Cluster.{l1_index, l2_index, host_of}
use clone.Storage.Qcow2.Image.Sound.{Owner, cluster_size_bounds, Holds, table_offset, slot, IsLaid}
use clone.Storage.Qcow2.Image.Same.{change, IsSame}
use clone.Storage.Qcow2.Image.View.{index_bounds, mapping, mapping-present, mapping-absent}

-- A mapped cluster has a table and an entry that names it.
host_of-some :
    (entry h : ℕ) → host_of entry ≡ some h → (l2_offset entry ≢ 0) × (l2_offset entry ≡ h)
host_of-some entry h e = elim (ℕ_discrete (l2_offset entry) 0) [
  | yes z ↦ absurd (ground arith)
  | no nz ↦ (nz, ground arith)
]

module _ {B : Type 0} where
  pub record IsMapped (own : ℕ → Owner) (q : Qcow2File B) (pos h : ℕ) : Type 0 where
    pub has_table : table_offset q (l1_index q.header pos) ≢ 0
    pub named : l2_offset (slot q (l1_index q.header pos) (l2_index q.header pos)) ≡ h
    pub not_zero : h ≢ 0
    pub held : Holds own q h (Owner.guest (l1_index q.header pos) (l2_index q.header pos))

  pub mapping-IsMapped :
      {own : ℕ → Owner} (q : Qcow2File B) (pos h : ℕ)
      → IsLaid own q
      → pos < q.header.size
      → mapping q pos ≡ some h
      → IsMapped own q pos h
  mapping-IsMapped {own} q pos h v l at =
      elim (ℕ_discrete (table_offset q (l1_index q.header pos)) 0) [
        | yes z ↦ absurd (none_ne (sym (mapping-absent q pos z) ∙ at))
        | no p ↦
            let i = l1_index q.header pos in
            let j = l2_index q.header pos in
            let bounds = index_bounds q.header pos v.sized v.covers l in
            let (nz, e) = host_of-some (slot q i j) h (sym (mapping-present q pos p) ∙ at) in
            record {
              has_table = p;
              named = e;
              not_zero = λ z. nz (e ∙ z);
              held = subst (λ h. Holds own q h (Owner.guest i j)) e (v.guests i j p bounds.1 nz);
            }
      ]
    where
      none_ne : none ≢ some h
      none_ne e = cc

  pub mapping-change :
      {own : ℕ → Owner} (q : Qcow2File B) (pos : ℕ) (f : DiskFile) (c : Cache) (n : ℕ)
      → IsLaid own q
      → IsSame own q f c n
      → pos < q.header.size
      → mapping (change q f c n) pos ≡ mapping q pos
  mapping-change q pos f c n v s l =
      let bounds = index_bounds q.header pos v.sized v.covers l in
      elim (ℕ_discrete (table_offset q (l1_index q.header pos)) 0) [
        | yes z ↦ mapping-absent (change q f c n) pos z ∙ sym (mapping-absent q pos z)
        | no p ↦
            mapping-present (change q f c n) pos p
            ∙ ap (λ entry. host_of entry)
                (s.slots (l1_index q.header pos) (l2_index q.header pos) p bounds.1)
            ∙ sym (mapping-present q pos p)
      ]

module _ {B : Type 0} (peek : B → ℕ → ℕ) where
  abbrev pub backing_byte : Option B → ℕ → ℕ
  backing_byte none pos = 0
  backing_byte (some b) pos = peek b pos

  abbrev pub byte_of : Qcow2File B → ℕ → Option ℕ → ℕ
  byte_of q pos none = backing_byte q.backing pos
  byte_of q pos (some h) = q.file.content (h + pos % cluster_size q.header)

  unfoldable pub guest_byte : Qcow2File B → Store
  guest_byte q pos = byte_of q pos (mapping q pos)

  pub guest_byte-mapping :
      (q : Qcow2File B) (pos : ℕ) (o : Option ℕ)
      → mapping q pos ≡ o
      → guest_byte q pos ≡ byte_of q pos o
  unfolding guest_byte
  guest_byte-mapping q pos o h = ap (byte_of q pos) h

  pub guest_byte-change :
      {own : ℕ → Owner} (q : Qcow2File B) (pos : ℕ) (f : DiskFile) (c : Cache) (n : ℕ)
      → IsLaid own q
      → IsSame own q f c n
      → pos < q.header.size
      → guest_byte (change q f c n) pos ≡ guest_byte q pos
  guest_byte-change {own} q pos f c n v s l =
      let e = mapping-change q pos f c n v s l in
      elim (Option-cases (mapping q pos)) [
        | inl z ↦
            guest_byte-mapping (change q f c n) pos none (e ∙ z)
            ∙ sym (guest_byte-mapping q pos none z)
        | inr (h, at) ↦
            let m : IsMapped own q pos h = mapping-IsMapped q pos h v l at in
            let sizes = cluster_size_bounds q.header v.sized in
            let k : pos % cluster_size q.header < cluster_size q.header =
              mod-lt pos (omega (arith, sizes)) in
            let inside : h + pos % cluster_size q.header < q.file.len =
              rw v.whole (omega (arith, k, m.held.inside)) in
            guest_byte-mapping (change q f c n) pos (some h) (e ∙ at)
            ∙ s.bytes (h + pos % cluster_size q.header) (l1_index q.header pos)
                (l2_index q.header pos) inside (m.held.mine (pos % cluster_size q.header) k)
            ∙ sym (guest_byte-mapping q pos (some h) at)
      ]
