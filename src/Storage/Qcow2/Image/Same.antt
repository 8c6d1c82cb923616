-- ===== src/Storage/Qcow2/Image/Same.antt =====
-- About storage/qcow2.rs: Qcow2File.
-- Images that differ in their cache and in what the file has of the cached tables.
use clone.Prelude.{
  ℕ, ap, ◌∙◌, ◌+◌, ◌*◌, ◌<◌, ◌≡◌, ◌≢◌, inl, inr, refl, sym, subst, some, Option-cases,
}
use native.Mathlib.Decide.{ℕ_discrete}
use clone.Storage.File.{DiskFile}
use clone.Storage.Qcow2.Header.{l2_entries_per_table}
use clone.Storage.Qcow2.Image.{Qcow2File, L2CacheEntry, Cache, l2_offset, find}
use clone.Storage.Qcow2.Image.Tables.{number_at}
use clone.Storage.Qcow2.Image.Sound.{
  Owner, Holds, table_offset, slot, slot_cached, slot_missing, IsLaid, IsCached, IsCoherent,
}

module _ {B : Type 0} where
  -- What the cache's operations change of an image.
  abbrev pub change : Qcow2File B → DiskFile → Cache → ℕ → Qcow2File B
  change q f c n = record q { file = f; l2_cache = c; access_counter = n }

  pub record IsSame (own : ℕ → Owner) (q : Qcow2File B) (f : DiskFile) (c : Cache) (n : ℕ)
      : Type 0 where
    pub same_len : f.len ≡ q.file.len
    pub slots :
        (i j : ℕ)
        → table_offset q i ≢ 0
        → j < l2_entries_per_table q.header
        → slot (change q f c n) i j ≡ slot q i j
    pub bytes :
        (x i j : ℕ) → x < q.file.len → own x ≡ Owner.guest i j → f.content x ≡ q.file.content x
    pub coherent : IsCoherent (change q f c n)

  pub IsSame-IsLaid :
      {own : ℕ → Owner} {q : Qcow2File B} {f : DiskFile} {c : Cache} {n : ℕ}
      → IsLaid own q
      → IsSame own q f c n
      → IsLaid own (change q f c n)
  IsSame-IsLaid {own} {q} v s = record {
    sized = v.sized;
    l1_len = v.l1_len;
    l1_small = v.l1_small;
    small = v.small;
    covers = v.covers;
    whole = s.same_len ∙ v.whole;
    aligned = v.aligned;
    begun = v.begun;
    tables = v.tables;
    blocks = v.blocks;
    fits = λ i j p l. rw (s.slots i j p l) (v.fits i j p l);
    plain = λ i j p l. rw (s.slots i j p l) (v.plain i j p l);
    guests = λ i j p l z.
        let e = s.slots i j p l in
        subst (λ entry. Holds own q (l2_offset entry) (Owner.guest i j)) (sym e)
          (v.guests i j p l (λ w. z (ap (λ entry. l2_offset entry) e ∙ w)));
  }

  pub IsSame-refl :
      {own : ℕ → Owner} (q : Qcow2File B)
      → IsCoherent q
      → IsSame own q q.file q.l2_cache q.access_counter
  IsSame-refl q h = record {
    same_len = refl;
    slots = λ i j p l. refl;
    bytes = λ x i j l o. refl;
    coherent = h;
  }

  pub IsSame-trans :
      {own : ℕ → Owner} {q : Qcow2File B} {f g : DiskFile} {c d : Cache} {n m : ℕ}
      → IsSame own q f c n
      → IsSame own (change q f c n) g d m
      → IsSame own q g d m
  IsSame-trans s t = record {
    same_len = t.same_len ∙ s.same_len;
    slots = λ i j p l. t.slots i j p l ∙ s.slots i j p l;
    bytes = λ x i j l o. t.bytes x i j (rw s.same_len l) o ∙ s.bytes x i j l o;
    coherent = t.coherent;
  }

  -- Outside table `i`, nothing changes but the file, and there the file has the same numbers.
  pub record IsKept (own : ℕ → Owner) (q : Qcow2File B) (f : DiskFile) (c : Cache) (i : ℕ)
      : Type 0 where
    pub kept_len : f.len ≡ q.file.len
    pub kept_find : (k : ℕ) → i ≢ k → find k c ≡ find k q.l2_cache
    pub kept_numbers :
        (k j : ℕ)
        → i ≢ k
        → table_offset q k ≢ 0
        → j < l2_entries_per_table q.header
        → number_at f (table_offset q k + j * 8) ≡ number_at q.file (table_offset q k + j * 8)
    pub kept_bytes :
        (x k j : ℕ) → x < q.file.len → own x ≡ Owner.guest k j → f.content x ≡ q.file.content x

  slot_elsewhere :
      {own : ℕ → Owner} (q : Qcow2File B) (f : DiskFile) (c : Cache) (n i k j : ℕ)
      → IsKept own q f c i
      → i ≢ k
      → table_offset q k ≢ 0
      → j < l2_entries_per_table q.header
      → slot (change q f c n) k j ≡ slot q k j
  slot_elsewhere q f c n i k j v ne p l = elim (Option-cases (find k q.l2_cache)) [
    | inl out ↦
        slot_missing (change q f c n) k j (v.kept_find k ne ∙ out)
        ∙ v.kept_numbers k j ne p l
        ∙ sym (slot_missing q k j out)
    | inr (e, at) ↦
        slot_cached (change q f c n) k j e (v.kept_find k ne ∙ at) ∙ sym (slot_cached q k j e at)
  ]

  IsCached-elsewhere :
      {own : ℕ → Owner} (q : Qcow2File B) (f : DiskFile) (c : Cache) (n i k : ℕ) (e : L2CacheEntry)
      → IsKept own q f c i
      → i ≢ k
      → IsCached q k e
      → IsCached (change q f c n) k e
  IsCached-elsewhere q f c n i k e v ne w = record {
    present = w.present;
    in_place = w.in_place;
    full = w.full;
    all64 = w.all64;
    clean = λ d j l. w.clean d j l ∙ sym (v.kept_numbers k j ne w.present l);
  }

  -- What is left to show is of table `i` alone.
  pub IsSame-at :
      {own : ℕ → Owner} (q : Qcow2File B) (f : DiskFile) (c : Cache) (n i : ℕ)
      → IsCoherent q
      → IsKept own q f c i
      → ((j : ℕ)
          → table_offset q i ≢ 0
          → j < l2_entries_per_table q.header
          → slot (change q f c n) i j ≡ slot q i j)
      → ((e : L2CacheEntry) → find i c ≡ some e → IsCached (change q f c n) i e)
      → IsSame own q f c n
  IsSame-at {own} q f c n i h v here cached = record {
    same_len = v.kept_len;
    slots = λ k j p l. elim (ℕ_discrete i k) [
      | yes e ↦
          subst (λ k. table_offset q k ≢ 0 → slot (change q f c n) k j ≡ slot q k j) e
            (λ p. here j p l) p
      | no ne ↦ slot_elsewhere {own = own} q f c n i k j v ne p l
    ];
    bytes = v.kept_bytes;
    coherent = λ k e at. elim (ℕ_discrete i k) [
      | yes eq ↦ subst (λ k. find k c ≡ some e → IsCached (change q f c n) k e) eq (cached e) at
      | no ne ↦
          IsCached-elsewhere {own = own} q f c n i k e v ne (h k e (sym (v.kept_find k ne) ∙ at))
    ];
  }
