-- ===== src/Storage/Qcow2/Image/Entries.antt =====
-- About storage/qcow2.rs: Qcow2File.
-- The entries of L2 tables that are sound to have in the cache, and the flags of an entry.
use clone.Prelude.{
  ℕ, zero, suc, ap, ◌∙◌, ◌%◌, ◌^◌, ◌<◌, ◌≡◌, ◌≢◌, refl, sym, subst, some, List, [], ◌∷◌, false,
  arith, length, length-set, length-replicate, get_or, set, replicate,
}
use clone.Storage.Qcow2.Header.{l2_entries_per_table}
use clone.Storage.Qcow2.Image.{
  Qcow2File, L2CacheEntry, l1_offset, l2_offset, is_compressed, copied, find,
}
use clone.Storage.Qcow2.Image.Alloc.{get_or-set_self}
use clone.Storage.Qcow2.Image.Tables.{All64}
use clone.Storage.Qcow2.Image.Sound.{Owner, Holds, slot, slot_cached, IsLaid, IsCoherent}
use clone.Storage.Qcow2.Image.Put.{here_or_elsewhere}

-- The flag is not part of the offset.
pub l1_offset-copied : (o : ℕ) → o % 512 ≡ 0 → o < 2 ^ 55 → l1_offset (copied o) ≡ o
l1_offset-copied o h l = ground arith

pub l2_offset-copied : (o : ℕ) → o % 512 ≡ 0 → o < 2 ^ 55 → l2_offset (copied o) ≡ o
l2_offset-copied o h l = ground arith

pub copied_plain : (o : ℕ) → o < 2 ^ 55 → is_compressed (copied o) ≡ false
copied_plain o l = ground arith

pub copied_bound : (o : ℕ) → o < 2 ^ 55 → copied o < 2 ^ 64
copied_bound o l = ground arith

pub get_or-set_ne : (xs : List ℕ) (i v j : ℕ) → i ≢ j → get_or (set xs i v) j 0 ≡ get_or xs j 0
get_or-set_ne [] i v j ne = refl
get_or-set_ne (x ∷ xs) zero v zero ne = absurd (ne refl)
get_or-set_ne (x ∷ xs) zero v (suc j) ne = refl
get_or-set_ne (x ∷ xs) (suc i) v zero ne = refl
get_or-set_ne (x ∷ xs) (suc i) v (suc j) ne = get_or-set_ne xs i v j λ e. ne (ap suc e)

All64-set : (xs : List ℕ) (i v : ℕ) → v < 2 ^ 64 → All64 xs → All64 (set xs i v)
All64-set [] i v l h = tt
All64-set (x ∷ xs) zero v l h = (l, h.1)
All64-set (x ∷ xs) (suc i) v l h = (h.0, All64-set xs i v l h.1)

All64-zeros : (n : ℕ) → All64 (replicate n 0)
All64-zeros zero = tt
All64-zeros (suc n) = (omega arith, All64-zeros n)

pub get_or-replicate : (n j : ℕ) → get_or {A = ℕ} (replicate n 0) j 0 ≡ 0
get_or-replicate zero j = refl
get_or-replicate (suc n) zero = refl
get_or-replicate (suc n) (suc j) = get_or-replicate n j

module _ {B : Type 0} where
  pub record IsTable (own : ℕ → Owner) (q : Qcow2File B) (i : ℕ) (entries : List ℕ) : Type 0 where
    pub full_t : length entries ≡ l2_entries_per_table q.header
    pub all64_t : All64 entries
    pub plain_t :
        (j : ℕ) → j < l2_entries_per_table q.header → is_compressed (get_or entries j 0) ≡ false
    pub guests_t :
        (j : ℕ)
        → j < l2_entries_per_table q.header
        → l2_offset (get_or entries j 0) ≢ 0
        → Holds own q (l2_offset (get_or entries j 0)) (Owner.guest i j)

  pub cached-IsTable :
      {own : ℕ → Owner} (q : Qcow2File B) (i : ℕ) (e : L2CacheEntry)
      → IsLaid own q
      → IsCoherent q
      → find i q.l2_cache ≡ some e
      → IsTable own q i e.entries
  cached-IsTable {own} q i e v h at =
      let c = h i e at in
      let s : (j : ℕ) → slot q i j ≡ get_or e.entries j 0 = λ j. slot_cached q i j e at in
      record {
        full_t = c.full;
        all64_t = c.all64;
        plain_t = λ j l. subst (λ x. is_compressed x ≡ false) (s j) (v.plain i j c.present l);
        guests_t = λ j l z.
            subst (λ x. Holds own q (l2_offset x) (Owner.guest i j)) (s j)
              (v.guests i j c.present l λ y. z (ap (λ x. l2_offset x) (sym (s j)) ∙ y));
      }

  pub zeros-IsTable :
      (own : ℕ → Owner) (q : Qcow2File B) (i : ℕ)
      → IsTable own q i (replicate (l2_entries_per_table q.header) 0)
  zeros-IsTable own q i =
      let n = l2_entries_per_table q.header in
      record {
        full_t = length-replicate n 0;
        all64_t = All64-zeros n;
        plain_t = λ j l. ap (λ x. is_compressed x) (get_or-replicate n j) ∙ ground arith;
        guests_t =
            λ j l z. absurd (z (ap (λ x. l2_offset x) (get_or-replicate n j) ∙ ground arith));
      }

  pub set-IsTable :
      {own : ℕ → Owner} (q : Qcow2File B) (i j host : ℕ) (entries : List ℕ)
      → IsTable own q i entries
      → j < l2_entries_per_table q.header
      → host % 512 ≡ 0
      → host < 2 ^ 55
      → Holds own q host (Owner.guest i j)
      → IsTable own q i (set entries j (copied host))
  set-IsTable {own} q i j host entries t b even small o =
      let here = get_or-set_self entries j (copied host) (rw t.full_t b) in
      record {
        full_t = length-set entries j (copied host) ∙ t.full_t;
        all64_t = All64-set entries j (copied host) (copied_bound host small) t.all64_t;
        plain_t = λ k.
            here_or_elsewhere
              (λ k.
                k < l2_entries_per_table q.header
                → is_compressed (get_or (set entries j (copied host)) k 0) ≡ false)
              j k (λ l. ap (λ x. is_compressed x) here ∙ copied_plain host small)
              (λ ne l.
                ap (λ x. is_compressed x) (get_or-set_ne entries j (copied host) k ne)
                ∙ t.plain_t k l);
        guests_t = λ k.
            here_or_elsewhere
              (λ k.
                k < l2_entries_per_table q.header
                → l2_offset (get_or (set entries j (copied host)) k 0) ≢ 0
                → Holds own q (l2_offset (get_or (set entries j (copied host)) k 0))
                    (Owner.guest i k))
              j k
              (λ l z.
                subst (λ x. Holds own q x (Owner.guest i j))
                  (sym (ap (λ x. l2_offset x) here ∙ l2_offset-copied host even small)) o)
              (λ ne l z.
                let e = ap (λ x. l2_offset x) (get_or-set_ne entries j (copied host) k ne) in
                subst (λ x. Holds own q x (Owner.guest i k)) (sym e)
                  (t.guests_t k l λ y. z (e ∙ y)));
      }
