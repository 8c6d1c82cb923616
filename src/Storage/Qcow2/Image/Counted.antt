-- ===== src/Storage/Qcow2/Image/Counted.antt =====
-- About storage/qcow2.rs: Qcow2File.
-- The allocation of clusters: alloc_cluster appends, and writes to refcount blocks alone.
use clone.Prelude.{
  ℕ, suc, ap, ◌∙◌, ◌+◌, ◌-◌, ◌*◌, ◌/◌, ◌^◌, ◌≤◌, ◌<◌, ◌≡◌, refl, sym, subst, inl, inr, List, arith,
  get_or, set, length, to_be, ◌==◌, Bool-cases,
}
use native.Mathlib.Nat.{mod-lt}
use clone.Storage.File.{DiskFile, set_len, write_all}
use clone.Storage.Qcow2.Header.{Qcow2Header, cluster_size}
use clone.Storage.Qcow2.Image.{Qcow2File}
use clone.Storage.Qcow2.Image.Refcount.{
  rc_table_index, rc_block_index, grown, write_refcount, extend, add_refcount_block,
  ensure_refcount_block, set_refcount, alloc_cluster,
}
use clone.Storage.Qcow2.Image.Sound.{
  Owner, block, IsSized, cluster_size_bounds, Owns, Holds, IsLaid,
}
use clone.Storage.Qcow2.Image.Grow.{grow, IsGrown, IsGrown-IsLaid, IsGrown-trans, Owns-grown}
use clone.Storage.Qcow2.Image.Alloc.{
  get_or-zeros, get_or-set_cases, get_or-set_self, grown_long, owned, extend_eq, extend-IsGrown,
  new_cluster, table-IsGrown, write_refcount_eq, write_refcount-IsGrown,
}

rc_index_bound :
    (h : Qcow2Header) (offset : ℕ) → IsSized h → rc_block_index h offset * 2 + 2 ≤ cluster_size h
rc_index_bound h offset v =
    let sizes = cluster_size_bounds h v in
    let b : rc_block_index h offset < cluster_size h / 2 =
      mod-lt (offset / cluster_size h) (omega (arith, sizes)) in
    omega (arith, b)

module _ {B : Type 0} where
  -- The image `r` is `q`, grown by at most `extra` bytes.
  pub record IsReached (own : ℕ → Owner) (q r : Qcow2File B) (extra : ℕ) : Type 0 where
    pub own_r : ℕ → Owner
    pub file_r : DiskFile
    pub table_r : List ℕ
    pub end_r : ℕ
    pub result : r ≡ grow q file_r table_r end_r
    pub is_grown : IsGrown block own own_r q file_r table_r end_r
    pub short : end_r ≤ q.next_alloc_offset + extra

  -- With a refcount block for entry `index` of the table.
  pub record IsBlocked (own : ℕ → Owner) (q r : Qcow2File B) (index : ℕ) : Type 0 where
    pub reached : IsReached own q r (cluster_size q.header)
    pub target :
        Owns reached.own_r
          (cluster_size q.header)
          reached.end_r
          (get_or reached.table_r index 0)
          block

  -- The new block, before its own refcount.
  module _ {own : ℕ → Owner} (q : Qcow2File B) (index : ℕ) (v : IsLaid own q)
      (small : q.next_alloc_offset + cluster_size q.header < 2 ^ 64)
      (long : index < length q.refcount_table) where
    abbrev own_b : ℕ → Owner
    own_b = owned own q.next_alloc_offset block

    abbrev end_b : ℕ
    end_b = q.next_alloc_offset + cluster_size q.header

    abbrev table_b : List ℕ
    table_b = set q.refcount_table index q.next_alloc_offset

    appended : IsGrown block own own_b q (set_len q.file end_b) q.refcount_table end_b
    appended = extend-IsGrown q block v

    entered : IsGrown block own own_b q (set_len q.file end_b) table_b end_b
    entered =
        let g = appended in
        let q' = grow q (set_len q.file end_b) q.refcount_table end_b in
        IsGrown-trans q (set_len q.file end_b) (set_len q.file end_b) q.refcount_table table_b end_b
          end_b g
          (table-IsGrown q' table_b
            (IsGrown-IsLaid q (set_len q.file end_b) q.refcount_table end_b v g)
            λ j p. elim (get_or-set_cases q.refcount_table index q.next_alloc_offset j) [
              | inl e ↦
                  subst (λ o. Owns own_b (cluster_size q.header) end_b o block) (sym e)
                    (new_cluster own q block)
              | inr e ↦
                  subst (λ o. Owns own_b (cluster_size q.header) end_b o block) (sym e)
                    (g.still_blocks j λ z. p (e ∙ z))
            ])

    blocked :
        (r : Qcow2File B) (f : DiskFile)
        → r ≡ grow q f table_b end_b
        → IsGrown block own own_b q f table_b end_b
        → IsBlocked own q r index
    blocked r f e g = record {
      reached = record {
        own_r = own_b;
        file_r = f;
        table_r = table_b;
        end_r = end_b;
        result = e;
        is_grown = g;
        short = omega arith;
      };
      target =
          subst (λ o. Owns own_b (cluster_size q.header) end_b o block)
            (sym (get_or-set_self q.refcount_table index q.next_alloc_offset long))
            (new_cluster own q block);
    }

    pub add-IsBlocked : IsBlocked own q (add_refcount_block index q) index
    unfolding add_refcount_block
    add-IsBlocked =
        let b = q.next_alloc_offset in
        let at = rc_block_index q.header b in
        let g = entered in
        let f = set_len q.file end_b in
        let q' = grow q f table_b end_b in
        let v' = IsGrown-IsLaid q f table_b end_b v g in
        let o = new_cluster own q block in
        let l = rc_index_bound q.header b v.sized in
        let e : record (extend q) { refcount_table = table_b } ≡ q' =
          ap {A = Qcow2File B} (λ r. record r { refcount_table = table_b }) (extend_eq q small) in
        elim (Bool-cases (rc_table_index q.header b == index)) [
          | inl own_block ↦
              let f' = write_all f (b + at * 2) (to_be 2 1) in
              let k = write_refcount-IsGrown q' b at 1 v' o l in
              blocked (add_refcount_block index q) f'
                ((let s : add_refcount_block index q
                        ≡ write_refcount b at 1 (record (extend q) { refcount_table = table_b }) =
                      rw (add_refcount_block, own_block) refl in
                    s)
                  ∙ ap (write_refcount b at 1) e
                  ∙ write_refcount_eq q' b at 1 v' small o l)
                (IsGrown-trans q f f' table_b table_b end_b end_b g k)
          | inr other_block ↦
              blocked (add_refcount_block index q) f
                ((let s : add_refcount_block index q
                        ≡ record (extend q) { refcount_table = table_b } =
                      rw (add_refcount_block, other_block) refl in
                    s)
                  ∙ e)
                g
        ]

  -- The table is long enough for the index.
  padded-IsGrown :
      {own : ℕ → Owner} (q : Qcow2File B) (index : ℕ)
      → IsLaid own q
      → IsGrown block own own q q.file (grown q.refcount_table index) q.next_alloc_offset
  padded-IsGrown {own} q index v =
      let t = q.refcount_table in
      let same : (j : ℕ) → get_or (grown t index) j 0 ≡ get_or t j 0 =
        λ j. get_or-zeros t (suc index - length t) j in
      table-IsGrown q (grown t index) v
        λ j p. subst (λ o. Holds own q o block) (sym (same j)) (v.blocks j λ z. p (same j ∙ z))

  ensure-IsBlocked :
      {own : ℕ → Owner} (q : Qcow2File B) (index : ℕ)
      → IsLaid own q
      → q.next_alloc_offset + cluster_size q.header < 2 ^ 64
      → IsBlocked own q (ensure_refcount_block index q) index
  unfolding ensure_refcount_block
  ensure-IsBlocked {own} q index v small =
      let t = grown q.refcount_table index in
      let q' = grow q q.file t q.next_alloc_offset in
      let g = padded-IsGrown q index v in
      let v' = IsGrown-IsLaid q q.file t q.next_alloc_offset v g in
      elim (Bool-cases (get_or t index 0 == 0)) [
        | inl missing ↦
            let r = add-IsBlocked q' index v' small (grown_long q.refcount_table index) in
            let k = r.reached in
            record {
              reached = record {
                own_r = k.own_r;
                file_r = k.file_r;
                table_r = k.table_r;
                end_r = k.end_r;
                result =
                    (let s : ensure_refcount_block index q ≡ add_refcount_block index q' =
                        rw (ensure_refcount_block, missing) refl in
                      s)
                    ∙ k.result;
                is_grown =
                    IsGrown-trans q q.file k.file_r t k.table_r q.next_alloc_offset k.end_r g
                      k.is_grown;
                short = k.short;
              };
              target = r.target;
            }
        | inr there ↦ record {
          reached = record {
            own_r = own;
            file_r = q.file;
            table_r = t;
            end_r = q.next_alloc_offset;
            result =
                (let s : ensure_refcount_block index q ≡ q' =
                    rw (ensure_refcount_block, there) refl in
                  s);
            is_grown = g;
            short = omega arith;
          };
          target = v'.blocks index λ z. absurd (ground arith);
        }
      ]

  pub set_refcount-IsReached :
      {own : ℕ → Owner} (q : Qcow2File B) (offset refcount : ℕ)
      → IsLaid own q
      → q.next_alloc_offset + cluster_size q.header < 2 ^ 64
      → IsReached own q (set_refcount offset refcount q) (cluster_size q.header)
  unfolding set_refcount
  set_refcount-IsReached {own} q offset refcount v small =
      let index = rc_table_index q.header offset in
      let at = rc_block_index q.header offset in
      let r = ensure-IsBlocked q index v small in
      let k = r.reached in
      let q' = grow q k.file_r k.table_r k.end_r in
      let v' = IsGrown-IsLaid q k.file_r k.table_r k.end_r v k.is_grown in
      let b = get_or k.table_r index 0 in
      let l = rc_index_bound q.header offset v.sized in
      let f = write_all k.file_r (b + at * 2) (to_be 2 refcount) in
      record {
        own_r = k.own_r;
        file_r = f;
        table_r = k.table_r;
        end_r = k.end_r;
        result =
            ap (λ s. write_refcount (get_or s.refcount_table index 0) at refcount s) k.result
            ∙ write_refcount_eq q' b at refcount v' (omega (arith, k.short)) r.target l;
        is_grown =
            IsGrown-trans q k.file_r f k.table_r k.table_r k.end_r k.end_r k.is_grown
              (write_refcount-IsGrown q' b at refcount v' r.target l);
        short = k.short;
      }

  -- The cluster at the old end of the file is the new owner's.
  pub record IsAllocated (own : ℕ → Owner) (q : Qcow2File B) (u : Owner) : Type 0 where
    pub own_a : ℕ → Owner
    pub file_a : DiskFile
    pub table_a : List ℕ
    pub end_a : ℕ
    pub result_a : alloc_cluster q ≡ (grow q file_a table_a end_a, q.next_alloc_offset)
    pub grown_a : IsGrown block own own_a q file_a table_a end_a
    pub short_a : end_a ≤ q.next_alloc_offset + 2 * cluster_size q.header
    pub cluster_a : Owns own_a (cluster_size q.header) end_a q.next_alloc_offset u

  pub alloc-IsAllocated :
      {own : ℕ → Owner} (q : Qcow2File B) (u : Owner)
      → IsLaid own q
      → q.next_alloc_offset + 2 * cluster_size q.header < 2 ^ 64
      → IsAllocated own q u
  unfolding alloc_cluster
  alloc-IsAllocated {own} q u v small =
      let n = q.next_alloc_offset + cluster_size q.header in
      let f = set_len q.file n in
      let g = extend-IsGrown q u v in
      let q' = grow q f q.refcount_table n in
      let v' = IsGrown-IsLaid q f q.refcount_table n v g in
      let r = set_refcount-IsReached q' q.next_alloc_offset 1 v' (omega arith) in
      record {
        own_a = r.own_r;
        file_a = r.file_r;
        table_a = r.table_r;
        end_a = r.end_r;
        result_a =
            ap (λ s. (set_refcount q.next_alloc_offset 1 s, q.next_alloc_offset))
              (extend_eq q (omega arith))
            ∙ ap (λ s. (s, q.next_alloc_offset)) r.result;
        grown_a = IsGrown-trans q f r.file_r q.refcount_table r.table_r n r.end_r g r.is_grown;
        short_a = omega (arith, r.short);
        cluster_a =
            Owns-grown q' r.file_r r.table_r r.end_r (cluster_size q.header) q.next_alloc_offset u
              r.is_grown (new_cluster own q u);
      }
