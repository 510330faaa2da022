-- ===== src/Views/Aggregated.antt =====
-- include/dbsp_materialized_view.hpp, AggregateView: what the states of the groups are of the table.
use duck_dbsp.Prelude.{
  ◌≡◌, refl, ap, ap₂, sym, ◌∙◌, true, List, [], ◌∷◌, if◌then◌else◌, inl, inr, Bool-cases, none,
  some, ◌%◌, ◌^◌, ◌+◌,
}
use duck_dbsp.Prelude.Int.{ℤ, pos, ◌*ℤ◌, int_laws, mul-one, mul_comm}
use duck_dbsp.Prelude.Equality.{Eq, ◌==◌}
use duck_dbsp.Umap
use duck_dbsp.Umap.{Umap}
use duck_dbsp.Umap.Sums.{sum, empty-UniqueKeys}
use duck_dbsp.Flat.Measures.{tally}
use duck_dbsp.Zset.{ZSet, empty, plus, is_positive}
use duck_dbsp.Zset.Reduced.{empty-IsReduced}
use duck_dbsp.Zset.Total.{total, total-plus, total-empty}
use duck_dbsp.Stream.Aggregate.{value_at, group_changes}
use duck_dbsp.Stream.Aggregate.Groups.{group_total}
use duck_dbsp.Stream.Run.{plus_all, sum_all}
use duck_dbsp.Views.{Row, Events, run, changes_to}
use duck_dbsp.Views.Groups.{HasGroups, rounds-HasGroups}
use duck_dbsp.Views.Grouped.{
  AggType, AggState, AggregateView, aggregate_rounds, group_rows, apply_aggregate,
  new_aggregate_view,
}
use duck_dbsp.Views.Advance.{
  advance, state_of, IsSettled, advance-state_of, advance_if, advance_if-advance,
  find-aggregate_rounds,
}
use duck_dbsp.Views.Totals.{
  group_rows-group_changes, value_at-group_changes, group_rows-UniqueKeys, group_changes-SameKeys,
  group_state, positive_group,
}

module _ {κ} {C : Type κ} ⦃er : Eq (Row C)⦄ (int_column : ℤ → C) (key : Row C → Row C)
    (value : Row C → ℤ) (agg : AggType) where
  -- The states and the result are those of a table: the state of each key is that of its group, and
  -- the result has the rows of the states.
  pub record HoldsTable (z : ZSet (Row C)) (states : Umap (Row C) AggState) (result : ZSet (Row C))
      : Type κ where
    pub groups : HasGroups int_column agg states result
    pub totals : (k : Row C) → Umap.find k states ≡ group_state key value k z

  advance-group_state :
      (k : Row C) (z d : ZSet (Row C))
      → is_positive z ≡ true
      → advance
          (group_state key value k z)
          (group_total key value k d)
          (group_total key (λ row. pos 1) k d)
        ≡ group_state key value k (plus z d)
  advance-group_state k z d positive =
      advance-state_of _ _ _ _ (positive_group key value k z positive)
      ∙ ap₂ state_of (sym (total-plus (λ row. if key row == k then value row else pos 0) z d))
          (sym (total-plus (λ row. if key row == k then pos 1 else pos 0) z d))

  new-HoldsTable : HoldsTable empty [] empty
  unfolding Umap.find total tally sum
  new-HoldsTable = record {
    groups = record {
      unique = empty-UniqueKeys (Row C) AggState;
      positive = λ j q e. let clash : none ≡ some q = e in cc;
      reduced = empty-IsReduced;
      rows = λ g. total-empty g;
    };
    totals = λ k. refl;
  }

  -- The change of each group's state.
  find-change :
      (k : Row C) (d : ZSet (Row C)) (s c : ℤ)
      → IsSettled s c
      → let (values, counts) = group_rows key value d ([], []) in
        advance_if (Umap.find k values) (state_of s c) (value_at counts k)
        ≡ advance (state_of s c) (group_total key value k d) (group_total key (λ row. pos 1) k d)
  unfolding value_at Umap.find
  find-change k d s c settled =
      let values = group_changes key (λ x w. value x *ℤ w) d [] in
      let counts = group_changes key (λ x w. w) d [] in
      let sums =
        value_at-group_changes key value value (λ x w. value x *ℤ w) (λ x w. mul_comm (value x) w) d
          [] k in
      let ones =
        value_at-group_changes key value (λ x. pos 1) (λ x w. w) (λ x w. sym (mul-one w)) d [] k in
      rw (group_rows-group_changes key value d ([], [])) (
        advance_if-advance (Umap.find k values) (Umap.find k counts) s c
          (group_changes-SameKeys key value _ _ d [] [] (λ j e. refl) k) settled
        ∙ ap₂ (advance (state_of s c)) (omega (int_laws, sums)) (omega (int_laws, ones)))

  -- One change of the table.
  change-HoldsTable :
      (z d : ZSet (Row C)) (states : Umap (Row C) AggState) (result : ZSet (Row C))
      → is_positive z ≡ true
      → HoldsTable z states result
      → let (values, counts) = group_rows key value d ([], []) in
        let s = aggregate_rounds int_column agg values counts (states, (empty, result)) in
        HoldsTable (plus z d) s.0 s.1.1
  change-HoldsTable z d states result positive held = record {
    groups = rounds-HasGroups int_column agg _ _ (states, (empty, result)) held.groups;
    totals = λ k.
        let (values, counts) = group_rows key value d ([], []) in
        let settled = positive_group key value k z positive in
        let found =
          find-aggregate_rounds int_column agg k values counts (states, (empty, result))
            (group_rows-UniqueKeys key value d) held.groups in
        found
        ∙ ap (λ o. advance_if (Umap.find k values) o (value_at counts k)) (held.totals k)
        ∙ find-change k d _ _ settled
        ∙ advance-group_state k z d positive;
  }

module _ {ℓ} {A : Type ℓ} ⦃ea : Eq A⦄ where
  -- After each of the changes no row of the table has a negative weight.
  abbrev pub AllPositive : ZSet A → List (ZSet A) → Type 0
  AllPositive z [] = Unit
  AllPositive z (d ∷ ds) = (is_positive (plus z d) ≡ true) × AllPositive (plus z d) ds

module _ {ℓ κ} {T : Type ℓ} {C : Type κ} ⦃et : Eq T⦄ ⦃er : Eq (Row C)⦄ (int_column : ℤ → C) where
  run-HoldsTable :
      (events : Events T (Row C)) (v : AggregateView T C) (z : ZSet (Row C))
      → is_positive z ≡ true
      → AllPositive z (changes_to v.source_table events)
      → HoldsTable int_column v.key_fn v.value_fn v.agg_type z v.agg_states v.result
      → let v' = run (apply_aggregate int_column) events v in
        HoldsTable int_column v.key_fn v.value_fn v.agg_type
          (plus_all z (changes_to v.source_table events))
          v'.agg_states
          v'.result
  unfolding apply_aggregate
  run-HoldsTable [] v z positive all held = held
  run-HoldsTable ((table, changes) ∷ events) v z positive all held =
      elim (Bool-cases (table == v.source_table)) [
        | inl e ↦
            let now = rw e at all in
            let grouped = group_rows v.key_fn v.value_fn changes ([], []) in
            let s =
              aggregate_rounds int_column v.agg_type grouped.0 grouped.1
                (v.agg_states, (empty, v.result)) in
            rw (run, apply_aggregate, e)
              (run-HoldsTable events
                (record v {
                  agg_states = s.0;
                  delta = s.1.0;
                  result = s.1.1;
                  version = (v.version + 1) % 2 ^ 64;
                })
                (plus z changes) now.0 now.1
                (change-HoldsTable int_column v.key_fn v.value_fn v.agg_type z changes v.agg_states
                  v.result positive held))
        | inr e ↦
            rw (run, apply_aggregate, e) (run-HoldsTable events v z positive (rw e at all) held)
      ]

  -- After any changes of tables that never leave the source table a row of negative weight, where `z`
  -- is the sum of that table's changes: AggregateView keeps for a key the state with the total of the
  -- value over the key's rows in `z`, the count of these rows, and the initial minimum and maximum, if
  -- the count is positive, and no state else; and its reduced result has, with weight 1, the row that
  -- `compute_agg` makes of each state, and no other row. So a MIN or MAX row shows the initial value.
  pub aggregate_view-HoldsTable :
      (t : T) (key : Row C → Row C) (value : Row C → ℤ) (agg : AggType) (events : Events T (Row C))
      → AllPositive empty (changes_to t events)
      → let v = run (apply_aggregate int_column) events (new_aggregate_view t key value agg) in
        HoldsTable int_column key value agg (sum_all (changes_to t events)) v.agg_states v.result
  unfolding is_positive
  aggregate_view-HoldsTable t key value agg events all =
      run-HoldsTable events (new_aggregate_view t key value agg) empty refl all
        (new-HoldsTable int_column key value agg)
