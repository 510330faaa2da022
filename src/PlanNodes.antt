-- ===== src/PlanNodes.antt =====
-- include/dbsp_plan_nodes.hpp: the nodes for DISTINCT and for set operations in a circuit of plan
-- operators. A step takes what the input functions give.
pub mod Distinct
pub mod Counts
pub mod Emit
pub mod SetOps
use duck_dbsp.Prelude.{
  ℕ, zero, suc, ◌+◌, Bool, true, false, ◌&&◌, ◌||◌, not, List, [], ◌∷◌, Option, none, some,
  if◌then◌else◌, length,
}
use duck_dbsp.Prelude.Int.{ℤ, pos, negsuc, ◌+ℤ◌, ◌-ℤ◌, ltb_ℤ, ◌==ℤ◌}
use duck_dbsp.Prelude.Equality.{Eq}
use duck_dbsp.Umap
use duck_dbsp.Umap.{Umap}
use duck_dbsp.Zset.{ZSet, empty, insert}
use duck_dbsp.Indexed.{is_empty}
use duck_dbsp.SetView.{min_ℤ, max_ℤ, to_ℤ}

pub record PlanDistinctNode {ℓ} (R : Type ℓ) : Type ℓ where
  pub counts : Umap R ℤ
  pub output : ZSet R
  pub has_output : Bool

module _ {ℓ} {R : Type ℓ} where
  -- A new node, and a node after `reset`.
  abbrev pub new_distinct : PlanDistinctNode R
  new_distinct = record { counts = []; output = empty; has_output = false }

  abbrev pub clear_distinct : PlanDistinctNode R → PlanDistinctNode R
  clear_distinct n = record n { output = empty; has_output = false }

module _ {ℓ} {R : Type ℓ} ⦃er : Eq R⦄ where
  -- The counts and the output after one slot of the changes.
  unfoldable pub distinct_change : R → ℤ → Umap R ℤ × ZSet R → Umap R ℤ × ZSet R
  distinct_change row w (counts, output) =
      let old_count = Umap.or_default (pos 0) (Umap.find row counts) in
      let count = old_count +ℤ w in
      let written = Umap.update (pos 0) row (λ c. c +ℤ w) counts in
      (
        if count ==ℤ pos 0 then Umap.erase row written else written,
        if not (ltb_ℤ (pos 0) old_count) && ltb_ℤ (pos 0) count
            then insert row (pos 1) output
            else if ltb_ℤ (pos 0) old_count && not (ltb_ℤ (pos 0) count)
            then insert row (negsuc 0) output
            else output,
      )

  unfoldable pub distinct_changes : ZSet R → Umap R ℤ × ZSet R → Umap R ℤ × ZSet R
  unfolding distinct_change
  distinct_changes [] s = s
  distinct_changes ((row, w) ∷ changes) s = distinct_changes changes (distinct_change row w s)

  unfoldable pub distinct_step : ZSet R → PlanDistinctNode R → PlanDistinctNode R
  unfolding distinct_changes
  distinct_step changes n =
      let (counts, output) = distinct_changes changes (n.counts, empty) in
      record { counts = counts; output = output; has_output = not (is_empty output) }

-- PlanOpSpec::SetOp
pub data SetOp : Type 0 where
  union_all union_op intersect_op intersect_all except_op except_all : SetOp

-- `at(i)`: a count past the end, or below zero, is zero.
abbrev pub count_at : List ℤ → ℕ → ℤ
count_at [] i = pos 0
count_at (c ∷ counts) zero = max_ℤ c (pos 0)
count_at (c ∷ counts) (suc i) = count_at counts i

-- The loops of UNION ALL and of UNION.
unfoldable pub sum_counts : List ℤ → ℤ
sum_counts [] = pos 0
sum_counts (c ∷ counts) = max_ℤ c (pos 0) +ℤ sum_counts counts

unfoldable pub any_count : List ℤ → Bool
any_count [] = false
any_count (c ∷ counts) = ltb_ℤ (pos 0) (max_ℤ c (pos 0)) || any_count counts

unfoldable pub multiplicity : SetOp → List ℤ → ℤ
unfolding sum_counts any_count
multiplicity union_all counts = sum_counts counts
multiplicity union_op counts = to_ℤ (any_count counts)
multiplicity intersect_all counts = min_ℤ (count_at counts 0) (count_at counts 1)
multiplicity intersect_op counts =
    to_ℤ (ltb_ℤ (pos 0) (count_at counts 0) && ltb_ℤ (pos 0) (count_at counts 1))
multiplicity except_all counts = max_ℤ (count_at counts 0 -ℤ count_at counts 1) (pos 0)
multiplicity except_op counts =
    to_ℤ (ltb_ℤ (pos 0) (count_at counts 0) && (count_at counts 1 ==ℤ pos 0))

-- `counts.resize(n, 0)`
unfoldable pub resize : ℕ → List ℤ → List ℤ
resize zero counts = []
resize (suc n) [] = pos 0 ∷ resize n []
resize (suc n) (c ∷ counts) = c ∷ resize n counts

-- `counts[i] += w`, for an `i` inside.
unfoldable pub add_at : ℕ → ℤ → List ℤ → List ℤ
add_at i w [] = []
add_at zero w (c ∷ counts) = (c +ℤ w) ∷ counts
add_at (suc i) w (c ∷ counts) = c ∷ add_at i w counts

unfoldable pub all_zero : List ℤ → Bool
all_zero [] = true
all_zero (c ∷ counts) = (c ==ℤ pos 0) && all_zero counts

pub record PlanSetOpNode {ℓ} (R : Type ℓ) : Type ℓ where
  -- How many inputs the node has.
  pub inputs : ℕ
  pub op : SetOp
  pub counts : Umap R (List ℤ)
  pub output : ZSet R
  pub has_output : Bool

module _ {ℓ} {R : Type ℓ} where
  abbrev pub new_set_op : ℕ → SetOp → PlanSetOpNode R
  new_set_op inputs op = record {
    inputs = inputs;
    op = op;
    counts = [];
    output = empty;
    has_output = false;
  }

  abbrev pub reset_set_op : PlanSetOpNode R → PlanSetOpNode R
  reset_set_op n = record n { counts = []; output = empty; has_output = false }

module _ {ℓ} {R : Type ℓ} ⦃er : Eq R⦄ where
  abbrev pub counts_of : R → Umap R (List ℤ) → List ℤ
  counts_of row m = Umap.or_default [] (Umap.find row m)

  -- `if (!old_counts.count(row)) old_counts[row] = counts;`
  abbrev pub keep_old : R → List ℤ → Umap R (List ℤ) → Umap R (List ℤ)
  keep_old row now old = elim (Umap.find row old) [
    | none ↦ Umap.update [] row (λ _. now) old
    | some v ↦ old
  ]

  -- The counts and the old counts after one slot of input `i`, of `n`.
  unfoldable pub collect_slot :
      ℕ → ℕ → R → ℤ → Umap R (List ℤ) × Umap R (List ℤ) → Umap R (List ℤ) × Umap R (List ℤ)
  unfolding resize add_at
  collect_slot n i row w (counts, old) =
      let sized = Umap.update [] row (resize n) counts in
      (Umap.update [] row (add_at i w) sized, keep_old row (counts_of row sized) old)

  unfoldable pub collect_input :
      ℕ → ℕ → ZSet R → Umap R (List ℤ) × Umap R (List ℤ) → Umap R (List ℤ) × Umap R (List ℤ)
  unfolding collect_slot
  collect_input n i [] s = s
  collect_input n i ((row, w) ∷ delta) s = collect_input n i delta (collect_slot n i row w s)

  -- The inputs from `i` on.
  unfoldable pub collect :
      ℕ → ℕ → List (ZSet R) → Umap R (List ℤ) × Umap R (List ℤ) → Umap R (List ℤ) × Umap R (List ℤ)
  unfolding collect_input
  collect n i [] s = s
  collect n i (delta ∷ deltas) s = collect n (suc i) deltas (collect_input n i delta s)

  -- The changed rows in turn, on the counts and the output.
  unfoldable pub emit :
      SetOp → Umap R (List ℤ) → Umap R (List ℤ) × ZSet R → Umap R (List ℤ) × ZSet R
  unfolding multiplicity all_zero
  emit op [] s = s
  emit op ((row, old) ∷ olds) (counts, output) =
      let now = counts_of row counts in
      let delta = multiplicity op now -ℤ multiplicity op old in
      emit op olds (
        if all_zero now then Umap.erase row counts else counts,
        if delta ==ℤ pos 0 then output else insert row delta output,
      )

  unfoldable pub set_op_step : List (ZSet R) → PlanSetOpNode R → PlanSetOpNode R
  unfolding collect emit
  set_op_step deltas n =
      let (collected, old) = collect n.inputs 0 deltas (n.counts, []) in
      let (counts, output) = emit n.op old (collected, empty) in
      record n { counts = counts; output = output; has_output = not (is_empty output) }
