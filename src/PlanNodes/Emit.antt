-- ===== src/PlanNodes/Emit.antt =====
-- include/dbsp_plan_nodes.hpp, PlanSetOpNode: the loop over the changed rows.
use duck_dbsp.Prelude.{
  ℕ, ◌≡◌, refl, sym, ap, ap₂, ◌∙◌, inl, inr, true, false, List, [], ◌∷◌, none, some, if◌then◌else◌,
  length, Bool-cases, some-inj, arith,
}
use duck_dbsp.Prelude.Int.{ℤ, pos, ◌+ℤ◌, ◌-ℤ◌, ◌==ℤ◌, ==ℤ_iff, int_laws}
use duck_dbsp.Prelude.Equality.{Eq, ◌==◌}
use duck_dbsp.Umap
use duck_dbsp.Umap.{Umap}
use duck_dbsp.Umap.Sums.{UniqueKeys, occurs, find-erase, find-eq-none, erase-UniqueKeys}
use duck_dbsp.Flat.{find}
use duck_dbsp.Zset.{ZSet, empty, get, insert}
use duck_dbsp.Zset.Reduced.{IsReduced, insert-IsReduced, empty-IsReduced}
use duck_dbsp.Zset.Weights.{get-insert}
use duck_dbsp.Stream.Distinct.{if_zero}
use duck_dbsp.PlanNodes.{SetOp, multiplicity, resize, all_zero, counts_of, emit}
use duck_dbsp.PlanNodes.Counts.{resize-same, all_zero-resize, seen, Met, Tracks}

module _ {ℓ} {R : Type ℓ} ⦃er : Eq R⦄ (n : ℕ) (op : SetOp) (row : R) where
  counts_of-erase :
      (x : R) (m : Umap R (List ℤ))
      → UniqueKeys m
      → counts_of row (Umap.erase x m) ≡ (if x == row then [] else counts_of row m)
  counts_of-erase x m u = elim (Bool-cases (x == row)) [
    | inl hit ↦ rw (find-erase x row m u, hit) refl
    | inr miss ↦ rw (find-erase x row m u, miss) refl
  ]

  -- The counts and the output after one changed row.
  abbrev erased : R → Umap R (List ℤ) → Umap R (List ℤ)
  erased x counts = if all_zero (counts_of x counts) then Umap.erase x counts else counts

  abbrev change : R → List ℤ → Umap R (List ℤ) → ℤ
  change x old counts = multiplicity op (counts_of x counts) -ℤ multiplicity op old

  abbrev put : R → ℤ → ZSet R → ZSet R
  put x delta output = if delta ==ℤ pos 0 then output else insert x delta output

  erased-UniqueKeys :
      (x : R) (counts : Umap R (List ℤ)) → UniqueKeys counts → UniqueKeys (erased x counts)
  erased-UniqueKeys x counts u k = ground (arith, u k, erase-UniqueKeys x counts u k)

  put-IsReduced : (x : R) (delta : ℤ) (z : ZSet R) → IsReduced z → IsReduced (put x delta z)
  put-IsReduced x delta z r = ground (arith, r, insert-IsReduced x delta z r)

  get-put :
      (x : R) (delta : ℤ) (z : ZSet R)
      → IsReduced z
      → get (put x delta z) row ≡ get z row +ℤ (if x == row then delta else pos 0)
  get-put x delta z r = elim (Bool-cases (delta ==ℤ pos 0)) [
    | inl same ↦ rw (same, (==ℤ_iff delta (pos 0)).0 same) (sym (if_zero (x == row) (get z row)))
    | inr differs ↦ rw differs (get-insert x delta z row r)
  ]

  counts_of-erased :
      (x : R) (counts : Umap R (List ℤ))
      → UniqueKeys counts
      → (x == row) ≡ false
      → counts_of row (erased x counts) ≡ counts_of row counts
  counts_of-erased x counts u miss = elim (Bool-cases (all_zero (counts_of x counts))) [
    | inl spent ↦ rw spent (counts_of-erase x counts u ∙ rw miss refl)
    | inr kept ↦ rw kept refl
  ]

  -- A row whose counts are all zero loses its entry, which reads as zeros again.
  seen-erased :
      (x : R) (counts : Umap R (List ℤ))
      → UniqueKeys counts
      → (x == row) ≡ true
      → length (counts_of row counts) ≡ n
      → seen n row (erased x counts) ≡ counts_of row counts
  seen-erased x counts u hit long =
      let same : counts_of x counts ≡ counts_of row counts =
        ap (λ (r : R). counts_of r counts) ((er.equal_iff x row).0 hit) in
      elim (Bool-cases (all_zero (counts_of x counts))) [
        | inl spent ↦ rw spent (
            ap (resize n) (counts_of-erase x counts u ∙ rw hit refl)
            ∙ all_zero-resize n (counts_of row counts) long (rw same at spent))
        | inr kept ↦ rw kept (resize-same n (counts_of row counts) long)
      ]

  -- The loop over the changed rows leaves a row that has not changed.
  emit-other :
      (olds counts : Umap R (List ℤ)) (output : ZSet R)
      → UniqueKeys counts
      → IsReduced output
      → Umap.find row olds ≡ none
      → UniqueKeys (emit op olds (counts, output)).0
        × IsReduced (emit op olds (counts, output)).1
        × (get (emit op olds (counts, output)).1 row ≡ get output row)
        × (counts_of row (emit op olds (counts, output)).0 ≡ counts_of row counts)
  unfolding emit Umap.find
  emit-other [] counts output u r e = (u, r, refl, refl)
  emit-other ((x, old) ∷ olds) counts output u r e = elim (Bool-cases (x == row)) [
    | inl hit ↦ absurd (ground (arith, e, hit))
    | inr miss ↦
        let d = change x old counts in
        let (u', r', g, c) =
          emit-other olds (erased x counts) (put x d output) (erased-UniqueKeys x counts u)
            (put-IsReduced x d output r) (rw miss at e) in
        (
          u',
          r',
          g ∙ get-put x d output r ∙ rw miss (omega int_laws),
          c ∙ counts_of-erased x counts u miss,
        )
  ]

  -- It puts out what the row's multiplicity has changed by, and keeps the row's counts.
  emit-row :
      (olds counts : Umap R (List ℤ)) (output : ZSet R) (before : List ℤ)
      → UniqueKeys olds
      → UniqueKeys counts
      → IsReduced output
      → length (counts_of row counts) ≡ n
      → Umap.find row olds ≡ some before
      → UniqueKeys (emit op olds (counts, output)).0
        × IsReduced (emit op olds (counts, output)).1
        × (get (emit op olds (counts, output)).1 row
            ≡ get output row +ℤ (multiplicity op (counts_of row counts) -ℤ multiplicity op before))
        × (seen n row (emit op olds (counts, output)).0 ≡ counts_of row counts)
  unfolding emit Umap.find occurs
  emit-row [] counts output before uo u r long e = cc
  emit-row ((x, old) ∷ olds) counts output before uo u r long e = elim (Bool-cases (x == row)) [
    | inl hit ↦
        let d = change x old counts in
        let same : old ≡ before = some-inj old before (rw hit at e) in
        let none_left : Umap.find row olds ≡ none =
          find-eq-none row olds (ground (arith, uo row, hit)) in
        let (u', r', g, c) =
          emit-other olds (erased x counts) (put x d output) (erased-UniqueKeys x counts u)
            (put-IsReduced x d output r) none_left in
        let d_row : d ≡ multiplicity op (counts_of row counts) -ℤ multiplicity op before =
          ap₂ (λ (q : R) (v : List ℤ). multiplicity op (counts_of q counts) -ℤ multiplicity op v)
            ((er.equal_iff x row).0 hit) same in
        (
          u',
          r',
          g ∙ get-put x d output r ∙ rw hit (ap (λ (c : ℤ). get output row +ℤ c) d_row),
          ap (resize n) c ∙ seen-erased x counts u hit long,
        )
    | inr miss ↦
        let d = change x old counts in
        let still = counts_of-erased x counts u miss in
        let (u', r', g, c) =
          emit-row olds (erased x counts) (put x d output) before (λ q. ground (arith, uo q))
            (erased-UniqueKeys x counts u) (put-IsReduced x d output r) (ap length still ∙ long)
            (rw miss at e) in
        let put_same : get (put x d output) row ≡ get output row =
          get-put x d output r ∙ rw miss (omega int_laws) in
        (
          u',
          r',
          g
              ∙ ap₂ (λ (a : ℤ) (v : List ℤ). a +ℤ (multiplicity op v -ℤ multiplicity op before))
                  put_same still,
          c ∙ still,
        )
  ]

  -- The row's part in what a step puts out.
  pub emit-Tracks :
      (before now : List ℤ) (counts olds : Umap R (List ℤ))
      → Tracks n row before now counts olds
      → Met n row before now counts olds
      → let after = emit op olds (counts, empty) in
        UniqueKeys after.0
        × IsReduced after.1
        × (get after.1 row ≡ multiplicity op now -ℤ multiplicity op before)
        × (seen n row after.0 ≡ now)
  unfolding get find
  emit-Tracks before now counts olds t (inl (new, same)) =
      let (u, r, g, c) = emit-other olds counts empty t.unique empty-IsReduced new in
      (u, r, omega (int_laws, g, ap (multiplicity op) same), ap (resize n) c ∙ t.has)
  emit-Tracks before now counts olds t (inr (there, long)) =
      let (u, r, g, c) =
        emit-row olds counts empty before t.unique_old t.unique empty-IsReduced long there in
      let exact : counts_of row counts ≡ now = sym (resize-same n _ long) ∙ t.has in
      (u, r, omega (int_laws, g, ap (multiplicity op) exact), c ∙ exact)
