-- ===== src/DistinctOn/Kept.antt =====
-- The view after any changes of tables.
use mathlib.Core.Path.{subst}
use duck_dbsp.Prelude.{
  ℕ, ◌≡◌, ◌⊎◌, refl, ap, ◌∙◌, Bool, true, false, List, [], ◌∷◌, inl, inr, Bool-cases, arith,
}
use duck_dbsp.Prelude.Int.{pos, pos_part, ◌+ℤ◌}
use duck_dbsp.Prelude.Equality.{Eq, ◌==◌}
use duck_dbsp.Umap
use duck_dbsp.Umap.Sums.{sum, empty-UniqueKeys}
use duck_dbsp.Zset.{ZSet, get, empty}
use duck_dbsp.Zset.Reduced.{IsReduced}
use duck_dbsp.Zset.Assign.{unit_at, get-total}
use duck_dbsp.Views.{Row, Events, AllReduced, run, changes_to}
use duck_dbsp.DistinctOn.{
  Values, SortColumn, DistinctOnView, row_before, extract_partition_key, apply_changes, get_result,
  new_distinct_on,
}
use duck_dbsp.DistinctOn.Ops.{
  IsDistinctValid, new-IsDistinctValid, apply_changes-IsDistinctValid, get_result-firsts,
  get_result-IsReduced,
}
use duck_dbsp.DistinctOn.First.{IsTotalOrder, multiplicity}
use duck_dbsp.DistinctOn.Partitions.{HoldsRows, partition_rounds-HoldsRows}
use duck_dbsp.DistinctOn.Least.{IsFirst, firsts-IsFirst}

module _ {ℓ} {R : Type ℓ} ⦃er : Eq R⦄ where
  -- How often a row is in a table, by changes one after the other: not less than never.
  abbrev pub counts_after : List (ZSet R) → (R → ℕ) → R → ℕ
  counts_after [] counts = counts
  counts_after (changes ∷ rest) counts =
      counts_after rest (λ x. pos_part (pos (counts x) +ℤ get changes x))

module _ {ℓ κ} {T : Type ℓ} {C : Type κ} ⦃et : Eq T⦄ ⦃er : Eq (Row C)⦄ (values : Values C) where
  abbrev pub before : DistinctOnView T C → Row C → Row C → Bool
  before v = row_before values v.sort_columns

  abbrev pub key_of : DistinctOnView T C → Row C → Row C
  key_of v = extract_partition_key values v.partition_keys

  pub record Keeps (counts : Row C → ℕ) (v : DistinctOnView T C) : Type (ℓ ⊔ κ) where
    pub order : IsTotalOrder (before v)
    pub valid : IsDistinctValid values v
    pub holds : HoldsRows (before v) (key_of v) counts v.partitions

  apply_changes-Keeps :
      (t : T) (changes : ZSet (Row C)) (counts : Row C → ℕ) (v : DistinctOnView T C)
      → IsReduced changes
      → Keeps counts v
      → ((t == v.source_table) ≡ true
          → Keeps
              (λ x. pos_part (pos (counts x) +ℤ get changes x))
              (apply_changes values t changes v))
        × ((t == v.source_table) ≡ false → Keeps counts (apply_changes values t changes v))
  unfolding apply_changes
  apply_changes-Keeps t changes counts v r k =
      let valid = apply_changes-IsDistinctValid values t changes v k.valid in
      (
        λ e. record {
          order = rw e k.order;
          valid = valid;
          holds = rw e (
              partition_rounds-HoldsRows (before v) (key_of v) k.order changes counts v.partitions
                empty r.distinct k.holds);
        },
        λ e. record { order = rw e k.order; valid = valid; holds = rw e k.holds },
      )

  abbrev settings : DistinctOnView T C → T × (List ℕ × List SortColumn)
  settings v = (v.source_table, (v.partition_keys, v.sort_columns))

  settings_after :
      (t : T) (changes : ZSet (Row C)) (v : DistinctOnView T C)
      → settings (apply_changes values t changes v) ≡ settings v
  unfolding apply_changes
  settings_after t changes v = elim (Bool-cases (t == v.source_table)) [
    | inl e ↦ rw e refl
    | inr e ↦ rw e refl
  ]

  settings-run :
      (events : Events T (Row C)) (v : DistinctOnView T C)
      → settings (run (apply_changes values) events v) ≡ settings v
  settings-run [] v = refl
  settings-run ((t, changes) ∷ events) v =
      settings-run events (apply_changes values t changes v) ∙ settings_after t changes v

  run-Keeps :
      (events : Events T (Row C)) (table : T) (counts : Row C → ℕ) (v : DistinctOnView T C)
      → v.source_table ≡ table
      → AllReduced events
      → Keeps counts v
      → Keeps (counts_after (changes_to table events) counts) (run (apply_changes values) events v)
  run-Keeps [] table counts v same rs k = k
  run-Keeps ((t, changes) ∷ events) table counts v same rs k =
      let step = apply_changes-Keeps t changes counts v rs.0 k in
      let v' = apply_changes values t changes v in
      let same' =
        ap (λ (p : T × (List ℕ × List SortColumn)). p.0) (settings_after t changes v) ∙ same in
      let next : (b : Bool) → (t == table) ≡ b → (t == v.source_table) ≡ b =
        λ b e. ap (λ (q : T). t == q) same ∙ e in
      elim (Bool-cases (t == table)) [
        | inl e ↦ rw e (
            run-Keeps events table (λ x. pos_part (pos (counts x) +ℤ get changes x)) v' same' rs.1
              (step.0 (next true e)))
        | inr e ↦ rw e (run-Keeps events table counts v' same' rs.1 (step.1 (next false e)))
      ]

  pub new-Keeps :
      (table : T) (keys : List ℕ) (columns : List SortColumn)
      → IsTotalOrder (row_before values columns)
      → Keeps (λ _. 0) (new_distinct_on table keys columns)
  unfolding multiplicity sum Umap.find
  new-Keeps table keys columns order = record {
    order = order;
    valid = new-IsDistinctValid values table keys columns;
    holds = record {
      unique = empty-UniqueKeys (Row C) (List (Row C));
      sorted = λ k. tt;
      counted = λ x k. ground arith;
    };
  }

  -- After any changes of tables to a new view, ...
  -- The weight of a row in the result of a view, by what is counted in its partitions.
  weight-IsFirst :
      (counts : Row C → ℕ) (v : DistinctOnView T C) (x : Row C)
      → Keeps counts v
      → ((get (get_result values v) x ≡ pos 1) × IsFirst (before v) (key_of v) counts x)
        ⊎ ((get (get_result values v) x ≡ pos 0) × ¬ IsFirst (before v) (key_of v) counts x)
  weight-IsFirst counts v x k =
      rw
        (
          get-total (get_result values v) x (get_result-IsReduced values v k.valid),
          get_result-firsts values (unit_at x) v k.valid,
        )
        (firsts-IsFirst (before v) (key_of v) k.order counts v.partitions x k.holds)

  -- After any changes of tables to a new view, the result has a row with weight 1 if it is in the source
  -- table and no row of its partition that is there goes before it, and has no other row. The changes are
  -- reduced, a row counts as there as often as its weights say, but never less than not at all, and the
  -- comparator is a strict total order.
  pub get_result-run :
      (table : T) (keys : List ℕ) (columns : List SortColumn) (events : Events T (Row C))
      (x : Row C)
      → IsTotalOrder (row_before values columns)
      → AllReduced events
      → let result =
          get_result values
            (run (apply_changes values) events (new_distinct_on table keys columns)) in
        let counts = counts_after (changes_to table events) (λ _. 0) in
        let IsFirstRow =
          IsFirst (row_before values columns) (extract_partition_key values keys) counts x in
        ((get result x ≡ pos 1) × IsFirstRow) ⊎ ((get result x ≡ pos 0) × ¬ IsFirstRow)
  get_result-run table keys columns events x order reduced =
      let start = new_distinct_on table keys columns in
      let v = run (apply_changes values) events start in
      let counts = counts_after (changes_to table events) (λ _. 0) in
      let kept =
        run-Keeps events table (λ _. 0) start refl reduced (new-Keeps table keys columns order) in
      subst
        (λ (s : T × (List ℕ × List SortColumn)).
          let IsFirstRow =
            IsFirst (row_before values s.1.1) (extract_partition_key values s.1.0) counts x in
          ((get (get_result values v) x ≡ pos 1) × IsFirstRow)
          ⊎ ((get (get_result values v) x ≡ pos 0) × ¬ IsFirstRow))
        (settings-run events start) (weight-IsFirst counts v x kept)
