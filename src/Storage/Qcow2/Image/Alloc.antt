-- ===== src/Storage/Qcow2/Image/Alloc.antt =====
-- About storage/qcow2.rs: Qcow2File.
-- The steps of an allocation: the file is extended, the refcount table changes, a refcount is written.
use clone.Prelude.{
  ℕ, zero, suc, ap, ◌∙◌, ◌+◌, ◌-◌, ◌*◌, ◌^◌, ◌≤◌, ◌<◌, ◌≡◌, ◌≢◌, ◌⊎◌, refl, sym, inl, inr, List, [],
  ◌∷◌, ◌++◌, true, arith, get_or, set, replicate, length, length-append, length-replicate, to_be,
  length-to_be, ltb, if◌then◌else◌,
}
use native.Mathlib.Nat.{mod-eq_of_lt}
use clone.Storage.File.{set_len, write_all}
use clone.Storage.Qcow2.Header.{cluster_size}
use clone.Storage.Qcow2.Image.{Qcow2File}
use clone.Storage.Qcow2.Image.Refcount.{grown, write_refcount, extend}
use clone.Storage.Qcow2.Image.Tables.{write_all_outside, len-write_all, set_len_inside}
use clone.Storage.Qcow2.Image.Sound.{Owner, block, cluster_size_bounds, Owns, Holds, apart, IsLaid}
use clone.Storage.Qcow2.Image.Grow.{grow, IsGrown}

pub get_or-zeros : (xs : List ℕ) (n j : ℕ) → get_or (xs ++ replicate n 0) j 0 ≡ get_or xs j 0
get_or-zeros [] zero j = refl
get_or-zeros [] (suc n) zero = refl
get_or-zeros [] (suc n) (suc j) = get_or-zeros [] n j
get_or-zeros (x ∷ xs) n zero = refl
get_or-zeros (x ∷ xs) n (suc j) = get_or-zeros xs n j

pub get_or-set_cases :
    (xs : List ℕ) (i v j : ℕ)
    → (get_or (set xs i v) j 0 ≡ v) ⊎ (get_or (set xs i v) j 0 ≡ get_or xs j 0)
get_or-set_cases [] i v j = inr refl
get_or-set_cases (x ∷ xs) zero v zero = inl refl
get_or-set_cases (x ∷ xs) zero v (suc j) = inr refl
get_or-set_cases (x ∷ xs) (suc i) v zero = inr refl
get_or-set_cases (x ∷ xs) (suc i) v (suc j) = get_or-set_cases xs i v j

pub get_or-set_self : (xs : List ℕ) (i v : ℕ) → i < length xs → get_or (set xs i v) i 0 ≡ v
get_or-set_self [] i v h = absurd (omega arith)
get_or-set_self (x ∷ xs) zero v h = refl
get_or-set_self (x ∷ xs) (suc i) v h = get_or-set_self xs i v (omega arith)

pub grown_long : (xs : List ℕ) (i : ℕ) → i < length (grown xs i)
grown_long xs i =
    rw
      (
        length-append xs (replicate (suc i - length xs) 0),
        length-replicate {A = ℕ} (suc i - length xs) 0,
      )
      (omega arith)

-- What stands behind the end gets an owner.
abbrev pub owned : (ℕ → Owner) → ℕ → Owner → ℕ → Owner
owned own limit u x = if ltb x limit then own x else u

Owns-owned :
    (own : ℕ → Owner) (size limit more offset : ℕ) (u w : Owner)
    → Owns own size limit offset w
    → Owns (owned own limit u) size (limit + more) offset w
Owns-owned own size limit more offset u w o = record {
  inside = omega (arith, o.inside);
  mine = λ k l.
      let before : ltb (offset + k) limit ≡ true = ground (arith, o.inside) in
      rw before (o.mine k l);
}

module _ {B : Type 0} where
  pub extend_eq :
      (q : Qcow2File B)
      → q.next_alloc_offset + cluster_size q.header < 2 ^ 64
      → extend q ≡ (
          let n = q.next_alloc_offset + cluster_size q.header in
          grow q (set_len q.file n) q.refcount_table n)
  extend_eq q h = ap (λ n. grow q (set_len q.file n) q.refcount_table n) (mod-eq_of_lt h)

  pub extend-IsGrown :
      {own : ℕ → Owner} (q : Qcow2File B) (u : Owner)
      → IsLaid own q
      → (let n = q.next_alloc_offset + cluster_size q.header in
          IsGrown block own
            (owned own q.next_alloc_offset u)
            q
            (set_len q.file n)
            q.refcount_table
            n)
  unfolding set_len
  extend-IsGrown {own} q u v =
      let n = q.next_alloc_offset in
      let sizes = cluster_size_bounds q.header v.sized in
      record {
        not_table = λ i e. cc;
        forward = omega arith;
        still_whole = refl;
        still_aligned = omega (arith, sizes, v.aligned);
        same_own = λ x l. ground arith;
        same_bytes = λ x l ne. set_len_inside q.file (n + cluster_size q.header) x (rw v.whole l);
        still_blocks = λ j p.
            Owns-owned own (cluster_size q.header) n (cluster_size q.header)
              (get_or q.refcount_table j 0) u block (v.blocks j p);
      }

  -- The cluster that an extension appends.
  pub new_cluster :
      (own : ℕ → Owner) (q : Qcow2File B) (u : Owner)
      → Owns
          (owned own q.next_alloc_offset u)
          (cluster_size q.header)
          (q.next_alloc_offset + cluster_size q.header)
          q.next_alloc_offset
          u
  new_cluster own q u = record { inside = omega arith; mine = λ k l. ground arith }

  pub table-IsGrown :
      {own : ℕ → Owner} (q : Qcow2File B) (t : List ℕ)
      → IsLaid own q
      → ((j : ℕ) → get_or t j 0 ≢ 0 → Holds own q (get_or t j 0) block)
      → IsGrown block own own q q.file t q.next_alloc_offset
  table-IsGrown q t v h = record {
    not_table = λ i e. cc;
    forward = omega arith;
    still_whole = v.whole;
    still_aligned = v.aligned;
    same_own = λ x l. refl;
    same_bytes = λ x l ne. refl;
    still_blocks = h;
  }

  pub write_refcount_eq :
      {own : ℕ → Owner} (q : Qcow2File B) (offset index refcount : ℕ)
      → IsLaid own q
      → q.next_alloc_offset < 2 ^ 64
      → Holds own q offset block
      → index * 2 + 2 ≤ cluster_size q.header
      → write_refcount offset index refcount q
        ≡ grow q
            (write_all q.file (offset + index * 2) (to_be 2 refcount))
            q.refcount_table
            q.next_alloc_offset
  write_refcount_eq q offset index refcount v small o l =
      ap (λ x. record q { file = write_all q.file x (to_be 2 refcount) })
        (mod-eq_of_lt (omega (arith, o.inside)))

  pub write_refcount-IsGrown :
      {own : ℕ → Owner} (q : Qcow2File B) (offset index refcount : ℕ)
      → IsLaid own q
      → Holds own q offset block
      → index * 2 + 2 ≤ cluster_size q.header
      → IsGrown block own own q
          (write_all q.file (offset + index * 2) (to_be 2 refcount))
          q.refcount_table
          q.next_alloc_offset
  write_refcount-IsGrown {own} q offset index refcount v o l =
      let two = length-to_be 2 refcount in
      record {
        not_table = λ i e. cc;
        forward = omega arith;
        still_whole =
            len-write_all q.file (offset + index * 2) (to_be 2 refcount)
              (rw (two, v.whole) (omega (arith, o.inside)))
            ∙ v.whole;
        still_aligned = v.aligned;
        same_own = λ x m. refl;
        same_bytes = λ x m ne.
            let beside = apart x (own x) o refl (λ e. ne (sym e)) in
            write_all_outside q.file (offset + index * 2) (to_be 2 refcount) x (rw v.whole m)
              (rw two (omega (arith, beside)));
        still_blocks = v.blocks;
      }
