-- ===== src/Storage/Qcow2/Image/Put.antt =====
-- About storage/qcow2.rs: Qcow2File.
-- A table put in the cache with its L1 entry: what it takes for the image to stay sound.
use clone.Prelude.{
  ℕ, ap, ◌∙◌, ◌+◌, ◌*◌, ◌^◌, ◌<◌, ◌≡◌, ◌≢◌, sym, subst, inl, inr, some, List, true, false, arith,
  length, get_or, Option-cases,
}
use native.Mathlib.Decide.{ℕ_discrete}
use clone.Storage.Qcow2.Header.{l2_entries_per_table}
use clone.Storage.Qcow2.Image.{
  Qcow2File, L2CacheEntry, Cache, l1_offset, l2_offset, is_compressed, find, insert,
}
use clone.Storage.Qcow2.Image.Assoc.{find-insert}
use clone.Storage.Qcow2.Image.Tables.{number_at, All64, each_of_All64}
use clone.Storage.Qcow2.Image.Sound.{
  Owner, Holds, table_offset, slot, slot_cached, slot_missing, IsLaid, IsCached, IsCoherent,
}
use clone.Storage.Qcow2.Image.Caching.{same_entry}

-- A claim on every index, from that on one and on all others.
pub here_or_elsewhere : (P : ℕ → Type 0) (i k : ℕ) → P i → (i ≢ k → P k) → P k
here_or_elsewhere P i k here elsewhere = elim (ℕ_discrete i k) [
  | yes e ↦ subst P e here
  | no ne ↦ elsewhere ne
]

module _ {B : Type 0} where
  abbrev pub put : Qcow2File B → List ℕ → Cache → ℕ → Qcow2File B
  put q l c n = record q { l1_table = l; l2_cache = c; access_counter = n }

  -- A table to put in at index `i`, with the L1 table that names it.
  pub record IsPut (own : ℕ → Owner) (q : Qcow2File B) (l : List ℕ) (i : ℕ) (e : L2CacheEntry)
      : Type 0 where
    pub same_length : length l ≡ length q.l1_table
    pub elsewhere : (k : ℕ) → i ≢ k → get_or l k 0 ≡ get_or q.l1_table k 0
    pub place : e.host_offset ≡ l1_offset (get_or l i 0)
    pub place_held : e.host_offset ≢ 0 × Holds own q e.host_offset (Owner.table i)
    pub dirty_e : e.dirty ≡ true
    pub full_e : length e.entries ≡ l2_entries_per_table q.header
    pub all64_e : All64 e.entries
    pub plain_e :
        (j : ℕ) → j < l2_entries_per_table q.header → is_compressed (get_or e.entries j 0) ≡ false
    pub guests_e :
        (j : ℕ)
        → j < l2_entries_per_table q.header
        → l2_offset (get_or e.entries j 0) ≢ 0
        → Holds own q (l2_offset (get_or e.entries j 0)) (Owner.guest i j)

  module _ {own : ℕ → Owner} (q : Qcow2File B) (l : List ℕ) (i n : ℕ) (e : L2CacheEntry)
      (w : IsPut own q l i e) where
    abbrev pub after_put : Qcow2File B
    after_put = put q l (insert i e q.l2_cache) n

    found_put : find i (insert i e q.l2_cache) ≡ some e
    found_put = find-insert i i e q.l2_cache ∙ ground arith

    pub slot_put : (j : ℕ) → slot after_put i j ≡ get_or e.entries j 0
    slot_put j = slot_cached after_put i j e found_put

    beside_put : (k : ℕ) → i ≢ k → find k (insert i e q.l2_cache) ≡ find k q.l2_cache
    beside_put k ne = find-insert k i e q.l2_cache ∙ ground arith

    pub offset_put : (k : ℕ) → i ≢ k → table_offset after_put k ≡ table_offset q k
    offset_put k ne = ap (λ x. l1_offset x) (w.elsewhere k ne)

    pub slot_put_ne : (k j : ℕ) → i ≢ k → slot after_put k j ≡ slot q k j
    slot_put_ne k j ne = elim (Option-cases (find k q.l2_cache)) [
      | inl out ↦
          slot_missing after_put k j (beside_put k ne ∙ out)
          ∙ ap (λ o. number_at q.file (o + j * 8)) (offset_put k ne)
          ∙ sym (slot_missing q k j out)
      | inr (f, at) ↦
          slot_cached after_put k j f (beside_put k ne ∙ at) ∙ sym (slot_cached q k j f at)
    ]

    pub IsPut-IsLaid : IsLaid own q → IsLaid own after_put
    IsPut-IsLaid v = record {
      sized = v.sized;
      l1_len = w.same_length ∙ v.l1_len;
      l1_small = v.l1_small;
      small = v.small;
      covers = v.covers;
      whole = v.whole;
      aligned = v.aligned;
      begun = v.begun;
      tables = λ k.
          here_or_elsewhere
            (λ k.
              table_offset after_put k ≢ 0 → Holds own q (table_offset after_put k) (Owner.table k))
            i k (λ p. subst (λ o. Holds own q o (Owner.table i)) w.place w.place_held.1)
            (λ ne p.
              let o = offset_put k ne in
              subst (λ o. Holds own q o (Owner.table k)) (sym o) (v.tables k λ z. p (o ∙ z)));
      blocks = v.blocks;
      fits = λ k j.
          here_or_elsewhere
            (λ k.
              table_offset after_put k ≢ 0
              → j < l2_entries_per_table q.header
              → slot after_put k j < 2 ^ 64)
            i k (λ p b. rw (slot_put j) (each_of_All64 e.entries j w.all64_e (rw w.full_e b)))
            (λ ne p b. rw (slot_put_ne k j ne) (v.fits k j (λ z. p (offset_put k ne ∙ z)) b));
      plain = λ k j.
          here_or_elsewhere
            (λ k.
              table_offset after_put k ≢ 0
              → j < l2_entries_per_table q.header
              → is_compressed (slot after_put k j) ≡ false)
            i k (λ p b. rw (slot_put j) (w.plain_e j b))
            (λ ne p b. rw (slot_put_ne k j ne) (v.plain k j (λ z. p (offset_put k ne ∙ z)) b));
      guests = λ k j.
          here_or_elsewhere
            (λ k.
              table_offset after_put k ≢ 0
              → j < l2_entries_per_table q.header
              → l2_offset (slot after_put k j) ≢ 0
              → Holds own q (l2_offset (slot after_put k j)) (Owner.guest k j))
            i k
            (λ p b z.
              let s = slot_put j in
              subst (λ x. Holds own q (l2_offset x) (Owner.guest i j)) (sym s)
                (w.guests_e j b λ y. z (ap (λ x. l2_offset x) s ∙ y)))
            (λ ne p b z.
              let s = slot_put_ne k j ne in
              subst (λ x. Holds own q (l2_offset x) (Owner.guest k j)) (sym s)
                (v.guests k j (λ y. p (offset_put k ne ∙ y)) b
                  λ y. z (ap (λ x. l2_offset x) s ∙ y)));
    }

    pub IsPut-IsCoherent : IsCoherent q → IsCoherent after_put
    IsPut-IsCoherent h k f =
        here_or_elsewhere (λ k. find k (insert i e q.l2_cache) ≡ some f → IsCached after_put k f) i
          k
          (λ at. subst (IsCached after_put i) (same_entry found_put at) (record {
            present = λ z. w.place_held.0 (w.place ∙ z);
            in_place = w.place;
            full = w.full_e;
            all64 = w.all64_e;
            clean = λ d j b. absurd (true_ne (sym w.dirty_e ∙ d));
          }))
          (λ ne at.
            let c = h k f (sym (beside_put k ne) ∙ at) in
            let o = offset_put k ne in
            record {
              present = λ z. c.present (sym o ∙ z);
              in_place = c.in_place ∙ sym o;
              full = c.full;
              all64 = c.all64;
              clean = λ d j b. c.clean d j b ∙ ap (λ x. number_at q.file (x + j * 8)) (sym o);
            })
      where
        true_ne : true ≢ false
        true_ne x = cc
