-- ===== src/PlanNodes/SetOps.antt =====
-- include/dbsp_plan_nodes.hpp, PlanSetOpNode: its outputs add up to the set operation.
use mathlib.Core.List.{map}
use duck_dbsp.Prelude.{
  ℕ, zero, suc, ◌≡◌, refl, sym, ap, ap₂, ◌∙◌, inl, false, List, [], ◌∷◌, All, All-replicate,
  replicate,
}
use duck_dbsp.Prelude.Int.{ℤ, pos, ◌+ℤ◌, ◌-ℤ◌, int_laws}
use duck_dbsp.Prelude.Equality.{Eq}
use duck_dbsp.Umap
use duck_dbsp.Umap.{Umap}
use duck_dbsp.Umap.Sums.{UniqueKeys, empty-UniqueKeys}
use duck_dbsp.Flat.{find}
use duck_dbsp.Zset.{ZSet, empty, get, plus}
use duck_dbsp.Zset.Reduced.{IsReduced, plus-IsReduced, empty-IsReduced}
use duck_dbsp.Zset.Total.{total, total-plus, total-empty}
use duck_dbsp.Zset.Assign.{unit_at, get-total}
use duck_dbsp.Stream.Run.{outputs, final, sum_all, get-outputs}
use duck_dbsp.PlanNodes.{
  SetOp, union_all, union_op, intersect_op, intersect_all, except_op, except_all, count_at,
  sum_counts, any_count, multiplicity, resize, add_at, PlanSetOpNode, new_set_op, collect,
  set_op_step,
}
use duck_dbsp.PlanNodes.Counts.{seen, Tracks, inputs_at, collect-Tracks}
use duck_dbsp.PlanNodes.Emit.{emit-Tracks}

-- Counts that are all zero have multiplicity zero under every operation.
sum_counts-zeros : (n : ℕ) → sum_counts (resize n []) ≡ pos 0
unfolding sum_counts resize ◌+ℤ◌
sum_counts-zeros zero = refl
sum_counts-zeros (suc n) = rw (sum_counts-zeros n) refl

any_count-zeros : (n : ℕ) → any_count (resize n []) ≡ false
unfolding any_count resize
any_count-zeros zero = refl
any_count-zeros (suc n) = rw (any_count-zeros n) refl

count_at-zeros : (n i : ℕ) → count_at (resize n []) i ≡ pos 0
unfolding resize
count_at-zeros zero i = refl
count_at-zeros (suc n) zero = refl
count_at-zeros (suc n) (suc i) = count_at-zeros n i

multiplicity-zeros : (op : SetOp) (n : ℕ) → multiplicity op (resize n []) ≡ pos 0
unfolding multiplicity ◌-ℤ◌
multiplicity-zeros union_all n = sum_counts-zeros n
multiplicity-zeros union_op n = rw (any_count-zeros n) refl
multiplicity-zeros intersect_op n = rw (count_at-zeros n 0) refl
multiplicity-zeros intersect_all n = rw (count_at-zeros n 0, count_at-zeros n 1) refl
multiplicity-zeros except_op n = rw (count_at-zeros n 0) refl
multiplicity-zeros except_all n = rw (count_at-zeros n 0, count_at-zeros n 1) refl

module _ {ℓ} {R : Type ℓ} ⦃er : Eq R⦄ where
  -- What a step puts out.
  abbrev pub set_op_output : PlanSetOpNode R → List (ZSet R) → ZSet R × PlanSetOpNode R
  set_op_output node deltas = ((set_op_step deltas node).output, set_op_step deltas node)

  -- The row's counts, and its multiplicity by them.
  abbrev value : R → PlanSetOpNode R → List ℤ
  value row node = seen node.inputs row node.counts

  abbrev measure : R → PlanSetOpNode R → ℤ
  measure row node = multiplicity node.op (value row node)

  step_lem :
      (row : R) (node : PlanSetOpNode R) (deltas : List (ZSet R))
      → UniqueKeys node.counts
      → let next = set_op_step deltas node in
        UniqueKeys next.counts
        × IsReduced next.output
        × (get next.output row ≡ measure row next -ℤ measure row node)
        × (value row next ≡ inputs_at node.inputs row 0 deltas (value row node))
  unfolding set_op_step Umap.find
  step_lem row node deltas u =
      let n = node.inputs in
      let before = value row node in
      let start : Tracks n row before before node.counts [] = record {
        unique = u;
        unique_old = empty-UniqueKeys R (List ℤ);
        has = refl;
        met = inl (refl, refl);
      } in
      let t = collect-Tracks n row 0 deltas before before node.counts [] start in
      let s = collect n 0 deltas (node.counts, []) in
      let (u', r, g, c) = emit-Tracks n node.op row before _ s.0 s.1 t t.met in
      (u', r, omega (int_laws, g, ap (multiplicity node.op) c), c)

  -- The sums of the inputs, after the Z-sets of one more step.
  unfoldable pub plus_each : List (ZSet R) → List (ZSet R) → List (ZSet R)
  plus_each [] deltas = []
  plus_each (z ∷ zs) [] = z ∷ zs
  plus_each (z ∷ zs) (delta ∷ deltas) = plus z delta ∷ plus_each zs deltas

  unfoldable pub sum_each : List (ZSet R) → List (List (ZSet R)) → List (ZSet R)
  unfolding plus_each
  sum_each zs [] = zs
  sum_each zs (deltas ∷ steps) = sum_each (plus_each zs deltas) steps

  inputs_at-suc :
      (n i : ℕ) (row : R) (deltas : List (ZSet R)) (c : ℤ) (v : List ℤ)
      → inputs_at n row (suc i) deltas (c ∷ v) ≡ c ∷ inputs_at n row i deltas v
  unfolding add_at
  inputs_at-suc n i row [] c v = refl
  inputs_at-suc n i row (z ∷ deltas) c v = inputs_at-suc n (suc i) row deltas c _

  inputs_at-nil : (n i : ℕ) (row : R) (deltas : List (ZSet R)) → inputs_at n row i deltas [] ≡ []
  unfolding add_at
  inputs_at-nil n i row [] = refl
  inputs_at-nil n i row (z ∷ deltas) = inputs_at-nil n (suc i) row deltas

  abbrev weights : R → List (ZSet R) → List ℤ
  weights row zs = map (λ z. total (unit_at row) z) zs

  weights-plus_each :
      (n : ℕ) (row : R) (zs deltas : List (ZSet R))
      → inputs_at n row 0 deltas (weights row zs) ≡ weights row (plus_each zs deltas)
  unfolding plus_each add_at
  weights-plus_each n row [] deltas = inputs_at-nil n 0 row deltas
  weights-plus_each n row (z ∷ zs) [] = refl
  weights-plus_each n row (z ∷ zs) (delta ∷ deltas) =
      inputs_at-suc n 0 row deltas _ (weights row zs)
      ∙ ap₂ (λ (c : ℤ) (v : List ℤ). c ∷ v) (sym (total-plus (unit_at row) z delta))
          (weights-plus_each n row zs deltas)

  value-final :
      (row : R) (steps : List (List (ZSet R))) (zs : List (ZSet R)) (node : PlanSetOpNode R)
      → UniqueKeys node.counts
      → value row node ≡ weights row zs
      → measure row (final set_op_output node steps)
        ≡ multiplicity node.op (weights row (sum_each zs steps))
  unfolding sum_each set_op_step
  value-final row [] zs node u e = ap (multiplicity node.op) e
  value-final row (deltas ∷ steps) zs node u e =
      let (u', r, g, c) = step_lem row node deltas u in
      value-final row steps (plus_each zs deltas) (set_op_step deltas node) u' (
        c ∙ ap (inputs_at node.inputs row 0 deltas) e ∙ weights-plus_each node.inputs row zs deltas)

  plus_each-IsReduced :
      (zs deltas : List (ZSet R)) → All IsReduced zs → All IsReduced (plus_each zs deltas)
  unfolding plus_each
  plus_each-IsReduced [] deltas a = tt
  plus_each-IsReduced (z ∷ zs) [] a = a
  plus_each-IsReduced (z ∷ zs) (delta ∷ deltas) a =
      (plus-IsReduced z delta a.0, plus_each-IsReduced zs deltas a.1)

  sum_each-IsReduced :
      (zs : List (ZSet R)) (steps : List (List (ZSet R)))
      → All IsReduced zs
      → All IsReduced (sum_each zs steps)
  unfolding sum_each
  sum_each-IsReduced zs [] a = a
  sum_each-IsReduced zs (deltas ∷ steps) a =
      sum_each-IsReduced (plus_each zs deltas) steps (plus_each-IsReduced zs deltas a)

  weights-get :
      (row : R) (zs : List (ZSet R)) → All IsReduced zs → weights row zs ≡ map (λ z. get z row) zs
  weights-get row [] a = refl
  weights-get row (z ∷ zs) a =
      ap₂ (λ (c : ℤ) (v : List ℤ). c ∷ v) (sym (get-total z row a.0)) (weights-get row zs a.1)

  weights-replicate : (row : R) (n : ℕ) → resize n [] ≡ weights row (replicate n empty)
  unfolding resize
  weights-replicate row zero = refl
  weights-replicate row (suc n) =
      ap₂ (λ (c : ℤ) (v : List ℤ). c ∷ v) (sym (total-empty (unit_at row)))
        (weights-replicate row n)

  -- Over any steps the outputs of PlanSetOpNode give each row the multiplicity that the operation has
  -- for the row's weights in the sums of the inputs, be there one input or many.
  pub set_op_sum :
      (n : ℕ) (op : SetOp) (steps : List (List (ZSet R))) (row : R)
      → get (sum_all (outputs set_op_output (new_set_op n op) steps)) row
        ≡ multiplicity op (map (λ z. get z row) (sum_each (replicate n empty) steps))
  unfolding get find Umap.find
  set_op_sum n op steps row =
      let sums = sum_each (replicate n empty) steps in
      let unique = empty-UniqueKeys R (List ℤ) in
      let all_reduced =
        sum_each-IsReduced (replicate n empty) steps
          (All-replicate IsReduced empty n empty-IsReduced) in
      omega (
        int_laws,
        get-outputs set_op_output (λ s. UniqueKeys s.counts) (measure row) row
            (λ s deltas u. let (u', r, g, c) = step_lem row s deltas u in (u', r, g))
            (new_set_op n op) empty steps unique empty-IsReduced,
        multiplicity-zeros op n,
        value-final row steps (replicate n empty) (new_set_op n op) unique
            (weights-replicate row n),
        ap (multiplicity op) (weights-get row sums all_reduced),
      )
