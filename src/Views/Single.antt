-- ===== src/Views/Single.antt =====
-- include/dbsp_materialized_view.hpp, the views of one table: FilteredView, ProjectedView and
-- DistinctView.
use duck_dbsp.Prelude.{ℕ, ◌+◌, ◌%◌, ◌^◌, Bool, [], ◌∷◌, if◌then◌else◌}
use duck_dbsp.Prelude.Equality.{Eq, ◌==◌}
use duck_dbsp.Zset
use duck_dbsp.Zset.{ZSet, empty}
use duck_dbsp.Stream.{IncrementalDistinct, distinct_delta, new_distinct}

module _ {ℓ κ} (T : Type ℓ) (R : Type κ) where
  pub record FilteredView : Type (ℓ ⊔ κ) where
    pub source_table : T
    pub predicate : R → Bool
    pub result : ZSet R
    pub delta : ZSet R
    pub version : ℕ

  pub record ProjectedView : Type (ℓ ⊔ κ) where
    pub source_table : T
    pub projection : R → R
    pub result : ZSet R
    pub delta : ZSet R
    pub version : ℕ

  pub record DistinctView : Type (ℓ ⊔ κ) where
    pub source_table : T
    pub distinct_op : IncrementalDistinct R
    pub result : ZSet R
    pub delta : ZSet R
    pub version : ℕ

-- The states that the constructors give.
module _ {ℓ κ} {T : Type ℓ} {R : Type κ} where
  abbrev pub new_filtered : T → (R → Bool) → FilteredView T R
  new_filtered table p = record {
    source_table = table;
    predicate = p;
    result = empty;
    delta = empty;
    version = 0;
  }

  abbrev pub new_projected : T → (R → R) → ProjectedView T R
  new_projected table f = record {
    source_table = table;
    projection = f;
    result = empty;
    delta = empty;
    version = 0;
  }

  abbrev pub new_distinct_view : T → DistinctView T R
  new_distinct_view table = record {
    source_table = table;
    distinct_op = new_distinct;
    result = empty;
    delta = empty;
    version = 0;
  }

  unfoldable pub reset_filtered : FilteredView T R → FilteredView T R
  reset_filtered v = record v { result = empty; delta = empty; version = 0 }

  unfoldable pub reset_projected : ProjectedView T R → ProjectedView T R
  reset_projected v = record v { result = empty; delta = empty; version = 0 }

  unfoldable pub reset_distinct : DistinctView T R → DistinctView T R
  reset_distinct v = record v {
    distinct_op = new_distinct;
    result = empty;
    delta = empty;
    version = 0;
  }

module _ {κ} {R : Type κ} ⦃er : Eq R⦄ where
  -- The loop of FilteredView, on the delta and the result.
  unfoldable pub filter_rows : (R → Bool) → ZSet R → ZSet R × ZSet R → ZSet R × ZSet R
  filter_rows p [] s = s
  filter_rows p ((row, weight) ∷ changes) (delta, result) = filter_rows p changes (
      if p row
      then (Zset.insert row weight delta, Zset.insert row weight result)
      else (delta, result))

  -- The loop of ProjectedView.
  unfoldable pub project_rows : (R → R) → ZSet R → ZSet R × ZSet R → ZSet R × ZSet R
  project_rows f [] s = s
  project_rows f ((row, weight) ∷ changes) (delta, result) =
      project_rows f changes (Zset.insert (f row) weight delta, Zset.insert (f row) weight result)

  -- `for (const auto& [row, weight] : delta_) result_.insert(row, weight);`
  unfoldable pub insert_delta : ZSet R → ZSet R → ZSet R
  insert_delta [] result = result
  insert_delta ((row, weight) ∷ delta) result = insert_delta delta (Zset.insert row weight result)

module _ {ℓ κ} {T : Type ℓ} {R : Type κ} ⦃et : Eq T⦄ ⦃er : Eq R⦄ where
  unfoldable pub apply_filtered : T → ZSet R → FilteredView T R → FilteredView T R
  unfolding filter_rows
  apply_filtered table changes v =
      if table == v.source_table
      then (let (delta, result) = filter_rows v.predicate changes (empty, v.result) in
          record v { delta = delta; result = result; version = (v.version + 1) % 2 ^ 64 })
      else v

  unfoldable pub apply_projected : T → ZSet R → ProjectedView T R → ProjectedView T R
  unfolding project_rows
  apply_projected table changes v =
      if table == v.source_table
      then (let (delta, result) = project_rows v.projection changes (empty, v.result) in
          record v { delta = delta; result = result; version = (v.version + 1) % 2 ^ 64 })
      else v

  unfoldable pub apply_distinct : T → ZSet R → DistinctView T R → DistinctView T R
  unfolding insert_delta distinct_delta
  apply_distinct table changes v =
      if table == v.source_table
      then (let (delta, op) = distinct_delta v.distinct_op changes in
          record v {
            distinct_op = op;
            delta = delta;
            result = insert_delta delta v.result;
            version = (v.version + 1) % 2 ^ 64;
          })
      else v
