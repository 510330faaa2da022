-- ===== src/Tests/Plans.antt =====
-- Tests of include/dbsp_plan_nodes.hpp and include/dbsp_plan_recursive.hpp.
use mathlib.Core.List.{map}
use duck_dbsp.Prelude.{
  inr, ◌==◌, true, ℕ, suc, ◌≡◌, refl, Bool, false, List, [], ◌∷◌, ltb, if◌then◌else◌, replicate,
}
use duck_dbsp.Prelude.Int.{ℤ, pos, negsuc, negate, ◌+ℤ◌, ◌*ℤ◌}
use duck_dbsp.Prelude.Equality.{nat_eq}
use duck_dbsp.Flat
use duck_dbsp.Zset.{ZSet, empty, insert, get, plus, minus, flatmap, distinct}
use duck_dbsp.Zset.Reduced.{
  IsReduced, empty-IsReduced, insert-IsReduced, plus-IsReduced, flatmap-IsReduced,
}
use duck_dbsp.Zset.Same.{◌≈◌}
use duck_dbsp.Stream.Run.{outputs, final, sum_all}
use duck_dbsp.View.{ViewOps}
use duck_dbsp.PlanNodes.{new_distinct, except_all, multiplicity, new_set_op}
use duck_dbsp.PlanNodes.Distinct.{distinct_output, plan_distinct_sum}
use duck_dbsp.PlanNodes.SetOps.{set_op_output, sum_each, set_op_sum}
use duck_dbsp.Recursive.{
  PlanRecursiveNode, step, reset_node, seed_loop, iterate, admit_loop, base_deltas,
}
use duck_dbsp.Recursive.Fixpoint.{IsFixpoint, step-IsFixpoint}
use duck_dbsp.Recursive.Balance.{IsRelation}
use duck_dbsp.Recursive.Outputs.{recursive_output, recursive_sum}
use duck_dbsp.Tests.Zsets.{three, two}

abbrev changes : List (ZSet ℕ)
changes = three ∷ two ∷ []

plan_distinct_sum_example :
    sum_all (outputs distinct_output new_distinct changes) ≈ distinct (sum_all changes)
plan_distinct_sum_example = plan_distinct_sum changes

-- Two inputs over two steps.
abbrev steps : List (List (ZSet ℕ))
steps = (three ∷ two ∷ []) ∷ (two ∷ empty ∷ []) ∷ []

set_op_sum_example :
    get (sum_all (outputs set_op_output (new_set_op 2 except_all) steps)) 7
    ≡ multiplicity except_all (map (λ z. get z 7) (sum_each (replicate 2 empty) steps))
set_op_sum_example = set_op_sum 2 except_all steps 7

-- The numbers after those below 3.
abbrev after_one : ℕ → ZSet ℕ
after_one n = if ltb n 3 then insert (suc n) (pos 1) empty else empty

abbrev next_numbers : ViewOps ℕ ℕ
next_numbers = record {
  View = ZSet ℕ × ZSet ℕ;
  apply_changes = λ t z v. (plus v.0 (flatmap after_one z), flatmap after_one z);
  get_result = λ v. v.0;
  get_delta = λ v. v.1;
  reset = λ v. (empty, empty);
  IsValid = λ v. IsReduced v.0 × IsReduced v.1;
  apply_changes-IsValid = λ t z v r valid.
      (plus-IsReduced v.0 (flatmap after_one z) valid.0, flatmap-IsReduced after_one z);
  result-IsReduced = λ v valid. valid.0;
  delta-IsReduced = λ v valid. valid.1;
  result-apply_changes = λ t z v r valid x. refl;
  reset-IsValid = λ v. (empty-IsReduced, empty-IsReduced);
  result-reset = λ v x. refl;
}

-- UNION from an anchor.
abbrev counting : PlanRecursiveNode next_numbers
counting = record {
  step_view = (empty, empty);
  sentinel = 9;
  union_all = false;
  linear_step = false;
  max_iterations = 100;
  accumulated = empty;
  anchor_total = empty;
  base_totals = [];
  output = empty;
  has_output = false;
}

abbrev one_up : ZSet ℕ
one_up = insert 1 (pos 1) empty

abbrev one_down : ZSet ℕ
one_down = insert 1 (negsuc 0) empty

counts_up :
    (step next_numbers one_up [] counting).output ≡ (1, pos 1) ∷ (2, pos 1) ∷ (3, pos 1) ∷ []
unfolding step flatmap insert plus minus ◌+ℤ◌ ◌*ℤ◌ get Flat.find Flat.write Flat.slot_for Flat.erase
counts_up = refl

-- Without its anchor the whole chain goes.
counts_down :
    (step next_numbers one_down [] (step next_numbers one_up [] counting)).accumulated ≡ []
unfolding step flatmap insert plus minus ◌+ℤ◌ ◌*ℤ◌ get Flat.find Flat.write Flat.slot_for Flat.erase
    negate
counts_down = refl

abbrev commits : List (ZSet ℕ × List (ℕ × ZSet ℕ))
commits = (one_up, []) ∷ (empty, (5, two) ∷ []) ∷ (one_down, []) ∷ []

recursive_sum_example :
    let last = final (recursive_output next_numbers) (reset_node next_numbers counting) commits in
    (sum_all (outputs (recursive_output next_numbers) (reset_node next_numbers counting) commits)
      ≈ last.accumulated)
    × (◌≡◌ {A = Bool} false false → IsRelation last.accumulated)
recursive_sum_example = recursive_sum next_numbers counting commits

-- The same view, which also notes what table 9 has fed it.
abbrev noting : ViewOps ℕ ℕ
noting = record {
  View = ZSet ℕ × ZSet ℕ × (ℕ → ℤ);
  apply_changes = λ t z v. (
    plus v.0 (flatmap after_one z),
    flatmap after_one z,
    λ row. if t == 9 then v.2 row +ℤ get z row else v.2 row,
  );
  get_result = λ v. v.0;
  get_delta = λ v. v.1;
  reset = λ v. (empty, empty, λ row. pos 0);
  IsValid = λ v. IsReduced v.0 × IsReduced v.1;
  apply_changes-IsValid = λ t z v r valid.
      (plus-IsReduced v.0 (flatmap after_one z) valid.0, flatmap-IsReduced after_one z);
  result-IsReduced = λ v valid. valid.0;
  delta-IsReduced = λ v valid. valid.1;
  result-apply_changes = λ t z v r valid x. refl;
  reset-IsValid = λ v. (empty-IsReduced, empty-IsReduced);
  result-reset = λ v x. refl;
}

-- UNION ALL over it.
abbrev counting_all : PlanRecursiveNode noting
counting_all = record {
  step_view = (empty, empty, λ row. pos 0);
  sentinel = 9;
  union_all = true;
  linear_step = true;
  max_iterations = 100;
  accumulated = empty;
  anchor_total = empty;
  base_totals = [];
  output = empty;
  has_output = false;
}

abbrev noted : ZSet ℕ × ZSet ℕ × (ℕ → ℤ) → ℕ → ℤ
noted v = v.2

step-IsFixpoint_example :
    IsFixpoint noting 9 noted (λ t z v row. refl) (step noting one_up [] counting_all)
unfolding seed_loop iterate admit_loop base_deltas flatmap insert plus minus ◌+ℤ◌ ◌*ℤ◌ get Flat.find
    Flat.write Flat.slot_for Flat.erase
step-IsFixpoint_example =
    step-IsFixpoint noting 9 noted (λ t z v row. refl) one_up [] counting_all refl refl refl
      (insert-IsReduced 1 (pos 1) empty empty-IsReduced) tt (inr (refl, tt)) refl
      (record {
        valid = (empty-IsReduced, empty-IsReduced);
        accumulated-IsReduced = empty-IsReduced;
        anchor-IsReduced = empty-IsReduced;
        solved = λ row. refl;
        fed_all = λ row. refl;
      })
