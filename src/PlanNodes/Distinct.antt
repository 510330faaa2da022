-- ===== src/PlanNodes/Distinct.antt =====
-- include/dbsp_plan_nodes.hpp, PlanDistinctNode: its outputs add up to the distinct rows.
use duck_dbsp.Prelude.{
  ◌≡◌, refl, sym, ◌∙◌, ap, if◌then◌else◌, List, [], ◌∷◌, inl, inr, Bool-cases, arith,
}
use duck_dbsp.Prelude.Int.{
  ℤ, pos, negsuc, ◌+ℤ◌, ◌-ℤ◌, ◌*ℤ◌, ltb_ℤ, ◌==ℤ◌, ==ℤ_iff, int_laws, mul-zero, mul-one,
}
use duck_dbsp.Prelude.Equality.{Eq, ◌==◌}
use duck_dbsp.Umap
use duck_dbsp.Umap.{Umap}
use duck_dbsp.Umap.Sums.{
  UniqueKeys, find-update, find-erase, update-UniqueKeys, erase-UniqueKeys, empty-UniqueKeys,
}
use duck_dbsp.Flat.{find}
use duck_dbsp.Flat.Measures.{tally}
use duck_dbsp.Zset.{ZSet, empty, get, plus, distinct}
use duck_dbsp.Zset.Reduced.{IsReduced, insert-IsReduced, empty-IsReduced}
use duck_dbsp.Zset.Total.{total, total-plus, total-empty}
use duck_dbsp.Zset.Assign.{unit_at, get-total}
use duck_dbsp.Zset.Same.{◌≈◌}
use duck_dbsp.Zset.Weights.{get-distinct}
use duck_dbsp.Stream.Run.{outputs, final, plus_all, sum_all, plus_all-IsReduced, get-outputs}
use duck_dbsp.Stream.Distinct.{sign_of, round-insert}
use duck_dbsp.PlanNodes.{
  PlanDistinctNode, new_distinct, distinct_change, distinct_changes, distinct_step,
}

module _ {ℓ} {R : Type ℓ} ⦃er : Eq R⦄ where
  -- What a step puts out.
  abbrev pub distinct_output : PlanDistinctNode R → ZSet R → ZSet R × PlanDistinctNode R
  distinct_output n changes = ((distinct_step changes n).output, distinct_step changes n)

  abbrev count : R → Umap R ℤ → ℤ
  count row m = Umap.or_default (pos 0) (Umap.find row m)

  count-erase :
      (x row : R) (m : Umap R ℤ)
      → UniqueKeys m
      → count x m ≡ pos 0
      → count row (Umap.erase x m) ≡ count row m
  count-erase x row m u e = elim (Bool-cases (x == row)) [
    | inl hit ↦
        rw (find-erase x row m u, hit)
          (sym e ∙ ap (λ (r : R). count r m) ((er.equal_iff x row).0 hit))
    | inr miss ↦ rw (find-erase x row m u, miss) refl
  ]

  count-update :
      (x row : R) (w : ℤ) (m : Umap R ℤ)
      → count row (Umap.update (pos 0) x (λ c. c +ℤ w) m)
        ≡ count row m +ℤ (if x == row then w else pos 0)
  count-update x row w m = elim (Bool-cases (x == row)) [
    | inl hit ↦
        rw (find-update (pos 0) x row (λ c. c +ℤ w) m, hit)
          (ap (λ (r : R). count r m +ℤ w) ((er.equal_iff x row).0 hit))
    | inr miss ↦ rw (find-update (pos 0) x row (λ c. c +ℤ w) m, miss) (omega int_laws)
  ]

  -- A slot adds its weight to the count of its row.
  count-change :
      (x row : R) (w : ℤ) (m : Umap R ℤ) (z : ZSet R)
      → UniqueKeys m
      → UniqueKeys (distinct_change x w (m, z)).0
        × (count row (distinct_change x w (m, z)).0
            ≡ count row m +ℤ (if x == row then w else pos 0))
  unfolding distinct_change
  count-change x row w m z u =
      let written = Umap.update (pos 0) x (λ c. c +ℤ w) m in
      let uw = update-UniqueKeys (pos 0) x (λ c. c +ℤ w) m u in
      elim (Bool-cases ((count x m +ℤ w) ==ℤ pos 0)) [
        | inl spent ↦
            let gone : count x written ≡ pos 0 =
              count-update x x w m
              ∙ rw ((er.equal_iff x x).1 refl) ((==ℤ_iff (count x m +ℤ w) (pos 0)).0 spent) in
            rw spent (
              erase-UniqueKeys x written uw,
              count-erase x row written uw gone ∙ count-update x row w m,
            )
        | inr kept ↦ rw kept (uw, count-update x row w m)
      ]

  -- The weight of a row in the output changes as the sign of its count does.
  output-change :
      (x row : R) (w : ℤ) (m : Umap R ℤ) (z : ZSet R)
      → IsReduced z
      → IsReduced (distinct_change x w (m, z)).1
        × (get (distinct_change x w (m, z)).1 row
            ≡ get z row
              +ℤ (sign_of (count row m +ℤ (if x == row then w else pos 0))
                  -ℤ sign_of (count row m)))
  unfolding distinct_change
  output-change x row w m z r = (
    ground (arith, insert-IsReduced x (pos 1) z r, insert-IsReduced x (negsuc 0) z r),
    round-insert (ltb_ℤ (pos 0) (count x m)) (ltb_ℤ (pos 0) (count x m +ℤ w)) x z row r
        ∙ elim (Bool-cases (x == row)) [
          | inl hit ↦ rw hit (
              ap (λ (r : R). get z row +ℤ (sign_of (count r m +ℤ w) -ℤ sign_of (count r m)))
                ((er.equal_iff x row).0 hit))
          | inr miss ↦
              let same : count row m +ℤ pos 0 ≡ count row m = omega int_laws in
              rw (miss, same) (omega int_laws)
        ],
  )

  -- What a row has in the slots of a Z-set.
  abbrev weight : R → ZSet R → ℤ
  weight row z = total (unit_at row) z

  unit_at-mul : (x row : R) (w : ℤ) → w *ℤ unit_at row x ≡ (if x == row then w else pos 0)
  unit_at-mul x row w = elim (Bool-cases (x == row)) [
    | inl hit ↦ rw hit (mul-one w)
    | inr miss ↦ rw miss (mul-zero w)
  ]

  distinct_changes_lem :
      (changes : ZSet R) (row : R) (m : Umap R ℤ) (z : ZSet R)
      → UniqueKeys m
      → IsReduced z
      → let s = distinct_changes changes (m, z) in
        UniqueKeys s.0
        × IsReduced s.1
        × (count row s.0 ≡ count row m +ℤ weight row changes)
        × (get s.1 row ≡ get z row +ℤ (sign_of (count row s.0) -ℤ sign_of (count row m)))
  unfolding distinct_changes total tally
  distinct_changes_lem [] row m z u r = (u, r, omega int_laws, omega int_laws)
  distinct_changes_lem ((x, w) ∷ changes) row m z u r =
      let s = distinct_change x w (m, z) in
      let (u1, counted) = count-change x row w m z u in
      let (r1, put) = output-change x row w m z r in
      let (u2, r2, counted2, put2) = distinct_changes_lem changes row s.0 s.1 u1 r1 in
      (
        u2,
        r2,
        omega (int_laws, counted, counted2, unit_at-mul x row w),
        omega (int_laws, put, put2, ap sign_of counted),
      )

  step-Good :
      (row : R) (n : PlanDistinctNode R) (changes : ZSet R)
      → UniqueKeys n.counts
      → UniqueKeys (distinct_step changes n).counts
        × IsReduced (distinct_step changes n).output
        × (get (distinct_step changes n).output row
            ≡ sign_of (count row (distinct_step changes n).counts) -ℤ sign_of (count row n.counts))
  unfolding distinct_step get find
  step-Good row n changes u =
      let (u', reduced, counted, put) =
        distinct_changes_lem changes row n.counts empty u empty-IsReduced in
      (u', reduced, omega (int_laws, put))

  step-count :
      (row : R) (n : PlanDistinctNode R) (changes : ZSet R)
      → UniqueKeys n.counts
      → count row (distinct_step changes n).counts ≡ count row n.counts +ℤ weight row changes
  unfolding distinct_step
  step-count row n changes u = (distinct_changes_lem changes row n.counts empty u empty-IsReduced).2

  count-final :
      (ds : List (ZSet R)) (row : R) (z : ZSet R) (n : PlanDistinctNode R)
      → UniqueKeys n.counts
      → count row (final distinct_output n ds).counts +ℤ weight row z
        ≡ count row n.counts +ℤ weight row (plus_all z ds)
  count-final [] row z n u = refl
  count-final (d ∷ ds) row z n u = omega (
    int_laws,
    count-final ds row (plus z d) (distinct_step d n) (step-Good row n d u).0,
    step-count row n d u,
    total-plus (unit_at row) z d,
  )

  -- Over any steps the outputs of PlanDistinctNode add up to `distinct` of the sum of its inputs.
  pub plan_distinct_sum :
      (ds : List (ZSet R))
      → sum_all (outputs distinct_output new_distinct ds) ≈ distinct (sum_all ds)
  unfolding get find Umap.find
  plan_distinct_sum ds row =
      let unique = empty-UniqueKeys R ℤ in
      let whole = plus_all-IsReduced empty ds empty-IsReduced in
      let counted : count row (final distinct_output new_distinct ds).counts
          ≡ get (sum_all ds) row =
        omega (
          int_laws,
          count-final ds row empty new_distinct unique,
          get-total (sum_all ds) row whole,
          total-empty (unit_at row),
        ) in
      omega (
        int_laws,
        get-outputs distinct_output (λ n. UniqueKeys n.counts) (λ n. sign_of (count row n.counts))
            row (step-Good row) new_distinct empty ds unique empty-IsReduced,
        ap sign_of counted,
        get-distinct (sum_all ds) whole row,
      )
