-- ===== src/Tests/Distinct.antt =====
-- Tests of include/dbsp_distinct_on.hpp.
use duck_dbsp.Prelude.{
  ℕ, ◌≡◌, ◌⊎◌, refl, sym, ◌∙◌, List, [], ◌∷◌, true, false, ltb, ◌==◌ as nat_equal, arith, ==_iff,
}
use duck_dbsp.Prelude.Int.{pos, negsuc, ◌+ℤ◌}
use duck_dbsp.Prelude.Equality.{nat_eq, list_eq}
use duck_dbsp.Flat
use duck_dbsp.Umap
use duck_dbsp.Zset.{ZSet, empty, insert, get, plus}
use duck_dbsp.Zset.Reduced.{empty-IsReduced, insert-IsReduced}
use duck_dbsp.Zset.Same.{◌≈◌}
use duck_dbsp.Views.{Row, Events, run, changes_to}
use duck_dbsp.DistinctOn.{
  Values, SortColumn, DistinctOnView, new_distinct_on, apply_changes, get_result, row_before,
  column_before, extract_partition_key,
}
use duck_dbsp.DistinctOn.Order.{IsValueOrder, row_before-IsTotalOrder}
use duck_dbsp.DistinctOn.Ops.{new-IsDistinctValid, distinct_on-result-apply_changes}
use duck_dbsp.DistinctOn.Least.{IsFirst}
use duck_dbsp.DistinctOn.Kept.{counts_after, get_result-run}

-- Numbers, with 0 as NULL.
abbrev numbers : Values ℕ
numbers = record { null = 0; is_null = λ n. nat_equal n 0; equal = nat_equal; less = ltb }

numbers_order : IsValueOrder numbers
numbers_order = record {
  one_null = λ a b h k. (==_iff a 0).0 h ∙ sym ((==_iff b 0).0 k);
  less_trans = λ a b c h k. ground arith;
  less_irrefl = λ a. ground arith;
  less_total = λ a b h k. ground arith;
}

-- Two rows of partition 7, of which the first goes away, and one of another table.
abbrev events : Events ℕ (Row ℕ)
events =
    (1, insert (7 ∷ 3 ∷ []) (pos 1) (insert (7 ∷ 4 ∷ []) (pos 2) empty))
    ∷ (2, insert (8 ∷ 3 ∷ []) (pos 1) empty)
    ∷ (1, insert (7 ∷ 3 ∷ []) (negsuc 0) empty)
    ∷ []

abbrev later : ZSet (Row ℕ)
later = insert (7 ∷ 4 ∷ []) (negsuc 0) (insert (9 ∷ 1 ∷ []) (pos 1) empty)

abbrev by_second : List SortColumn
by_second = record { column_idx = 1; ascending = false; nulls_first = true } ∷ []

abbrev start : DistinctOnView ℕ ℕ
start = new_distinct_on 1 (0 ∷ []) by_second

abbrev changes : ZSet (Row ℕ)
changes = insert (7 ∷ 3 ∷ []) (pos 1) (insert (7 ∷ 4 ∷ []) (pos 2) empty)

-- By the second column from the greatest on.
greatest_first :
    get_result {T = ℕ} numbers (apply_changes {T = ℕ} numbers 1 changes start)
    ≡ (7 ∷ 4 ∷ [], pos 1) ∷ []
unfolding apply_changes get_result insert ◌+ℤ◌ Flat.find Flat.write Flat.slot_for Flat.erase
    Umap.find Umap.update Umap.erase column_before
greatest_first = refl

get_result-run_example :
    let result =
      get_result numbers (run (apply_changes numbers) events (new_distinct_on 1 (0 ∷ []) [])) in
    let counts = counts_after (changes_to 1 events) (λ _. 0) in
    let IsFirstRow =
      IsFirst
        (row_before numbers [])
        (extract_partition_key numbers (0 ∷ []))
        counts
        (7 ∷ 4 ∷ []) in
    ((get result (7 ∷ 4 ∷ []) ≡ pos 1) × IsFirstRow)
    ⊎ ((get result (7 ∷ 4 ∷ []) ≡ pos 0) × ¬ IsFirstRow)
get_result-run_example =
    get_result-run numbers 1 (0 ∷ []) [] events (7 ∷ 4 ∷ [])
      (row_before-IsTotalOrder numbers numbers_order)
      (
        insert-IsReduced (7 ∷ 3 ∷ []) (pos 1) _
            (insert-IsReduced (7 ∷ 4 ∷ []) (pos 2) empty empty-IsReduced),
        (
          insert-IsReduced (8 ∷ 3 ∷ []) (pos 1) empty empty-IsReduced,
          (insert-IsReduced (7 ∷ 3 ∷ []) (negsuc 0) empty empty-IsReduced, tt),
        ),
      )

distinct_on-result-apply_changes_example :
    get_result numbers (apply_changes numbers 1 later start)
    ≈ plus (get_result numbers start) (apply_changes numbers 1 later start).delta
distinct_on-result-apply_changes_example =
    distinct_on-result-apply_changes numbers 1 later start
      (new-IsDistinctValid numbers 1 (0 ∷ []) by_second)
