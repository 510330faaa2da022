-- ===== src/DistinctOn/Ops.antt =====
-- The view keeps the contract of NativeMaterializedView.
use duck_dbsp.Prelude.{ℕ, arith, ◌≡◌, refl, true, List, inl, inr, Bool-cases}
use duck_dbsp.Prelude.Int.{ℤ, ◌+ℤ◌, int_laws}
use duck_dbsp.Prelude.Equality.{Eq, ◌==◌}
use duck_dbsp.Umap.Sums.{sum, UniqueKeys, empty-UniqueKeys}
use duck_dbsp.Zset.{ZSet, empty, get, plus}
use duck_dbsp.Zset.Reduced.{IsReduced, empty-IsReduced, plus-IsReduced}
use duck_dbsp.Zset.Total.{total, total-empty, total-plus}
use duck_dbsp.Zset.Same.{◌≈◌, same_of_total}
use duck_dbsp.View.{ViewOps}
use duck_dbsp.Views.{Row}
use duck_dbsp.DistinctOn.{
  Values, SortColumn, DistinctOnView, row_before, extract_partition_key, partition_rounds,
  apply_changes, with_result, get_result, reset, new_distinct_on,
}
use duck_dbsp.DistinctOn.Result.{
  first_rows-total, first_rows-IsReduced, firsts, Moved, partition_rounds-Moved,
}

module _ {ℓ κ} {T : Type ℓ} {C : Type κ} ⦃et : Eq T⦄ ⦃er : Eq (Row C)⦄ (values : Values C) where
  -- A partition for a key, and a kept result that is the first rows of the partitions.
  pub record IsDistinctValid (v : DistinctOnView T C) : Type (ℓ ⊔ κ) where
    pub unique : UniqueKeys v.partitions
    pub result-IsReduced : IsReduced v.result
    pub delta-IsReduced : IsReduced v.delta
    pub kept : v.result_valid ≡ true → (g : Row C → ℤ) → total g v.result ≡ firsts g v.partitions

  pub new-IsDistinctValid :
      (table : T) (keys : List ℕ) (columns : List SortColumn)
      → IsDistinctValid (new_distinct_on table keys columns)
  unfolding sum
  new-IsDistinctValid table keys columns = record {
    unique = empty-UniqueKeys (Row C) (List (Row C));
    result-IsReduced = empty-IsReduced;
    delta-IsReduced = empty-IsReduced;
    kept = λ e g. total-empty g;
  }

  pub get_result-firsts :
      (g : Row C → ℤ) (v : DistinctOnView T C)
      → IsDistinctValid v
      → total g (get_result values v) ≡ firsts g v.partitions
  unfolding get_result with_result
  get_result-firsts g v valid = elim (Bool-cases v.result_valid) [
    | inl e ↦ rw e (valid.kept e g)
    | inr e ↦ rw e (omega (int_laws, first_rows-total g v.partitions empty, total-empty g))
  ]

  pub get_result-IsReduced :
      (v : DistinctOnView T C) → IsDistinctValid v → IsReduced (get_result values v)
  unfolding get_result with_result
  get_result-IsReduced v valid = elim (Bool-cases v.result_valid) [
    | inl e ↦ rw e valid.result-IsReduced
    | inr e ↦ rw e (first_rows-IsReduced v.partitions empty empty-IsReduced)
  ]

  -- The partitions and the delta that the loop makes.
  moved :
      (changes : ZSet (Row C)) (v : DistinctOnView T C)
      → IsDistinctValid v
      → (let (m, d) =
            partition_rounds
              (row_before values v.sort_columns)
              (extract_partition_key values v.partition_keys)
              changes
              (v.partitions, empty) in
          Moved v.partitions m empty d)
  moved changes v valid =
      partition_rounds-Moved (row_before values v.sort_columns)
        (extract_partition_key values v.partition_keys) changes v.partitions empty valid.unique
        empty-IsReduced

  pub apply_changes-IsDistinctValid :
      (t : T) (changes : ZSet (Row C)) (v : DistinctOnView T C)
      → IsDistinctValid v
      → IsDistinctValid (apply_changes values t changes v)
  unfolding apply_changes
  apply_changes-IsDistinctValid t changes v valid =
      let new = moved changes v valid in
      elim (Bool-cases (t == v.source_table)) [
        | inl e ↦ rw e record {
          unique = new.unique;
          result-IsReduced = empty-IsReduced;
          delta-IsReduced = new.reduced;
          kept = λ no. absurd (ground (arith, no));
        }
        | inr e ↦ rw e record {
          unique = valid.unique;
          result-IsReduced = valid.result-IsReduced;
          delta-IsReduced = empty-IsReduced;
          kept = valid.kept;
        }
      ]

  firsts-apply_changes :
      (g : Row C → ℤ) (t : T) (changes : ZSet (Row C)) (v : DistinctOnView T C)
      → IsDistinctValid v
      → let v' = apply_changes values t changes v in
        firsts g v'.partitions ≡ firsts g v.partitions +ℤ total g v'.delta
  unfolding apply_changes
  firsts-apply_changes g t changes v valid =
      let new = moved changes v valid in
      elim (Bool-cases (t == v.source_table)) [
        | inl e ↦ rw e (omega (int_laws, new.change g, total-empty g))
        | inr e ↦ rw e (omega (int_laws, total-empty g))
      ]

  -- In a view whose kept result, where it is kept, is the first rows of its partitions, the result after
  -- changes of any table is the one before with the delta added.
  pub distinct_on-result-apply_changes :
      (t : T) (changes : ZSet (Row C)) (v : DistinctOnView T C)
      → IsDistinctValid v
      → get_result values (apply_changes values t changes v)
        ≈ plus (get_result values v) (apply_changes values t changes v).delta
  distinct_on-result-apply_changes t changes v valid =
      let v' = apply_changes values t changes v in
      let valid' = apply_changes-IsDistinctValid t changes v valid in
      same_of_total (get_result values v') (plus (get_result values v) v'.delta)
        (get_result-IsReduced v' valid')
        (plus-IsReduced (get_result values v) v'.delta (get_result-IsReduced v valid))
        (λ g. omega (
          int_laws,
          get_result-firsts g v' valid',
          get_result-firsts g v valid,
          firsts-apply_changes g t changes v valid,
          total-plus g (get_result values v) v'.delta,
        ))

  pub reset-IsDistinctValid : (v : DistinctOnView T C) → IsDistinctValid (reset v)
  unfolding reset sum
  reset-IsDistinctValid v = record {
    unique = empty-UniqueKeys (Row C) (List (Row C));
    result-IsReduced = empty-IsReduced;
    delta-IsReduced = empty-IsReduced;
    kept = λ e g. total-empty g;
  }

  pub result-reset :
      (v : DistinctOnView T C) (x : Row C)
      → get (get_result values (reset v)) x ≡ get {A = Row C} empty x
  unfolding reset get_result with_result
  result-reset v x = refl

  -- Set operations and joins of views take it as they take any view.
  abbrev pub distinct_on_ops : ViewOps T (Row C)
  distinct_on_ops = record {
    View = DistinctOnView T C;
    apply_changes = apply_changes values;
    get_result = get_result values;
    get_delta = λ v. v.delta;
    reset = reset;
    IsValid = IsDistinctValid;
    apply_changes-IsValid = λ t changes v r valid. apply_changes-IsDistinctValid t changes v valid;
    result-IsReduced = get_result-IsReduced;
    delta-IsReduced = λ v valid. valid.delta-IsReduced;
    result-apply_changes =
        λ t changes v r valid. distinct_on-result-apply_changes t changes v valid;
    reset-IsValid = reset-IsDistinctValid;
    result-reset = result-reset;
  }
