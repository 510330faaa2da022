-- ===== src/Tests/Views.antt =====
-- Tests of include/dbsp_materialized_view.hpp and include/dbsp_set_ops.hpp.
use duck_dbsp.Prelude.{ℕ, ◌≡◌, refl, [], ◌∷◌, ◌++◌, true, false}
use duck_dbsp.Prelude.Int.{ℤ, pos, negsuc, ◌+ℤ◌, ◌*ℤ◌}
use duck_dbsp.Prelude.Equality.{nat_eq, pair_eq, list_eq, int_eq, ◌==◌}
use duck_dbsp.Flat
use duck_dbsp.Umap
use duck_dbsp.Zset.{ZSet, empty, insert, plus, is_positive, map, filter, distinct}
use duck_dbsp.Zset.Reduced.{IsReduced, empty-IsReduced, insert-IsReduced, plus-IsReduced}
use duck_dbsp.Zset.Same.{◌≈◌}
use duck_dbsp.Indexed.{equi_join}
use duck_dbsp.Stream.Run.{sum_all}
use duck_dbsp.View.{ViewOps}
use duck_dbsp.View.Batch.{
  BatchView, apply_changes_batch, get_batch_delta, result-apply_changes_batch,
}
use duck_dbsp.SetView.{SetView, except_op, union_op, apply_set_changes, reset_set}
use duck_dbsp.SetView.Result.{
  IsSetValid, apply_set_changes-IsSetValid, reset_set-IsSetValid, set_result-apply_changes, set_ops,
}
use duck_dbsp.Views.{Row, Events, run, changes_to}
use duck_dbsp.Views.Single.{new_filtered, new_distinct_view, apply_filtered, apply_distinct}
use duck_dbsp.Views.Linear.{filtered-run, distinct_view-run}
use duck_dbsp.Views.Joined.{new_join_view, apply_join}
use duck_dbsp.Views.Bilinear.{join_view-run, self_join-run}
use duck_dbsp.Views.Grouped.{agg_sum, agg_min, new_aggregate_view, apply_aggregate}
use duck_dbsp.Views.Aggregated.{HoldsTable, AllPositive, aggregate_view-HoldsTable}

-- Tables 1 and 2, with rows of numbers; the second batch takes a row back.
abbrev events : Events ℕ (Row ℤ)
events =
    (1, insert (pos 7 ∷ pos 3 ∷ []) (pos 1) (insert (pos 7 ∷ pos 4 ∷ []) (pos 1) empty))
    ∷ (2, insert (pos 7 ∷ []) (pos 2) empty)
    ∷ (1, insert (pos 7 ∷ pos 4 ∷ []) (negsuc 0) empty)
    ∷ []

abbrev key : Row ℤ → Row ℤ
key [] = []
key (x ∷ row) = x ∷ []

abbrev value : Row ℤ → ℤ
value [] = pos 0
value (x ∷ []) = x
value (x ∷ y ∷ row) = y

joined_rows :
    (run apply_join events (new_join_view 1 2 key key)).flattened_result
    ≡ (pos 7 ∷ pos 3 ∷ pos 7 ∷ [], pos 2) ∷ []
unfolding apply_join insert ◌+ℤ◌ ◌*ℤ◌ Flat.find Flat.write Flat.slot_for Flat.erase Umap.find
    Umap.update
joined_rows = refl

summed_rows :
    (run (apply_aggregate (λ v. v)) events (new_aggregate_view 1 key value agg_sum)).result
    ≡ (pos 7 ∷ pos 3 ∷ [], pos 1) ∷ []
unfolding apply_aggregate insert ◌+ℤ◌ ◌*ℤ◌ Flat.find Flat.write Flat.slot_for Flat.erase Umap.find
    Umap.update
summed_rows = refl

-- MIN puts out the greatest `int64_t` for any group.
least_rows :
    (run (apply_aggregate (λ v. v)) events (new_aggregate_view 1 key value agg_min)).result
    ≡ (pos 7 ∷ pos 9223372036854775807 ∷ [], pos 1) ∷ []
unfolding apply_aggregate insert ◌+ℤ◌ ◌*ℤ◌ Flat.find Flat.write Flat.slot_for Flat.erase Umap.find
    Umap.update
least_rows = refl

filtered-run_example :
    (run apply_filtered events (new_filtered 1 (λ row. value row == pos 3))).result
    ≈ filter (λ row. value row == pos 3) (sum_all (changes_to 1 events))
filtered-run_example = filtered-run 1 (λ row. value row == pos 3) events

distinct_view-run_example :
    (run apply_distinct events (new_distinct_view 2)).result
    ≈ distinct (sum_all (changes_to 2 events))
distinct_view-run_example = distinct_view-run 2 events

join_view-run_example :
    (run apply_join events (new_join_view 1 2 key key)).flattened_result
    ≈ map
        (λ p. p.0 ++ p.1)
        (equi_join (sum_all (changes_to 1 events)) (sum_all (changes_to 2 events)) key key)
join_view-run_example = join_view-run 1 2 key key events refl

self_join-run_example : (run apply_join events (new_join_view 1 1 key key)).flattened_result ≡ empty
self_join-run_example = self_join-run 1 key key events

events-AllPositive : AllPositive empty (changes_to 1 events)
unfolding is_positive insert plus ◌+ℤ◌ Flat.find Flat.write Flat.slot_for Flat.erase
events-AllPositive = (refl, (refl, tt))

aggregate_view-HoldsTable_example :
    let v = run (apply_aggregate (λ n. n)) events (new_aggregate_view 1 key value agg_sum) in
    HoldsTable (λ n. n) key value agg_sum (sum_all (changes_to 1 events)) v.agg_states v.result
aggregate_view-HoldsTable_example =
    aggregate_view-HoldsTable (λ n. n) 1 key value agg_sum events events-AllPositive

-- A view that copies its table.
abbrev copy : ViewOps ℕ ℕ
copy = record {
  View = ZSet ℕ × ZSet ℕ;
  apply_changes = λ t z v. (plus v.0 z, z);
  get_result = λ v. v.0;
  get_delta = λ v. v.1;
  reset = λ v. (empty, empty);
  IsValid = λ v. IsReduced v.0 × IsReduced v.1;
  apply_changes-IsValid = λ t z v r valid. (plus-IsReduced v.0 z valid.0, r);
  result-IsReduced = λ v valid. valid.0;
  delta-IsReduced = λ v valid. valid.1;
  result-apply_changes = λ t z v r valid x. refl;
  reset-IsValid = λ v. (empty-IsReduced, empty-IsReduced);
  result-reset = λ v x. refl;
}

abbrev except_view : SetView copy
except_view = record {
  left_view = (empty, empty);
  right_view = (empty, empty);
  kind = except_op;
  all_rows = true;
  result = empty;
  delta = empty;
  version = 0;
}

-- UNION of a copy's EXCEPT ALL with itself.
abbrev union_view : SetView (set_ops copy)
union_view = record {
  left_view = except_view;
  right_view = except_view;
  kind = union_op;
  all_rows = false;
  result = empty;
  delta = empty;
  version = 0;
}

abbrev row_nine : ZSet ℕ
row_nine = insert 9 (pos 2) empty

row_nine-IsReduced : IsReduced row_nine
row_nine-IsReduced = insert-IsReduced 9 (pos 2) empty empty-IsReduced

apply_set_changes-IsSetValid_example :
    IsSetValid copy (apply_set_changes copy 1 row_nine (reset_set copy except_view))
apply_set_changes-IsSetValid_example =
    apply_set_changes-IsSetValid copy 1 row_nine (reset_set copy except_view) row_nine-IsReduced
      (reset_set-IsSetValid copy except_view)

set_result-apply_changes_example :
    let v = apply_set_changes (set_ops copy) 1 row_nine (reset_set (set_ops copy) union_view) in
    v.result ≈ plus (reset_set (set_ops copy) union_view).result v.delta
set_result-apply_changes_example =
    set_result-apply_changes (set_ops copy) 1 row_nine (reset_set (set_ops copy) union_view)
      row_nine-IsReduced (reset_set-IsSetValid (set_ops copy) union_view)

abbrev copied : BatchView copy
copied = record { view = (empty, empty); batched = false; batch_delta = empty }

-- Two tables in one commit: the delta is the sum, not the last change.
batch_sum :
    get_batch_delta copy (apply_changes_batch copy ((1, row_nine) ∷ (2, row_nine) ∷ []) copied)
    ≡ (9, pos 4) ∷ []
unfolding get_batch_delta apply_changes_batch insert plus ◌+ℤ◌ Flat.find Flat.write Flat.slot_for
batch_sum = refl

result-apply_changes_batch_example :
    let b = apply_changes_batch copy ((1, row_nine) ∷ (2, row_nine) ∷ []) copied in
    b.view.0 ≈ plus empty (get_batch_delta copy b)
result-apply_changes_batch_example =
    result-apply_changes_batch copy (1, row_nine) ((2, row_nine) ∷ []) copied
      (row_nine-IsReduced, (row_nine-IsReduced, tt)) (empty-IsReduced, empty-IsReduced)
