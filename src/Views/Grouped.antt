-- ===== src/Views/Grouped.antt =====
-- include/dbsp_materialized_view.hpp, AggregateView: one aggregate of a table's rows by key.
use Prim.Native.Nat.{◌/◌}
use duck_dbsp.Prelude.{ℕ, ◌+◌, ◌-◌, ◌%◌, ◌^◌, [], ◌∷◌, ◌++◌, if◌then◌else◌}
use duck_dbsp.Prelude.Int.{ℤ, pos, negsuc, ◌+ℤ◌, ◌*ℤ◌, negate, ltb_ℤ}
use duck_dbsp.Prelude.Equality.{Eq, ◌==◌}
use duck_dbsp.Umap
use duck_dbsp.Umap.{Umap}
use duck_dbsp.Zset
use duck_dbsp.Zset.{ZSet, empty}
use duck_dbsp.Stream.Aggregate.{value_at}
use duck_dbsp.Views.{Row}

pub data AggType : Type 0 where
  agg_sum agg_count agg_avg agg_min agg_max : AggType

pub record AggState : Type 0 where
  pub sum : ℤ
  pub count : ℤ
  pub min : ℤ
  pub max : ℤ

-- The member initializers: the greatest and the least `int64_t`.
abbrev pub new_state : AggState
new_state = record { sum = pos 0; count = pos 0; min = pos (2 ^ 63 - 1); max = negsuc (2 ^ 63 - 1) }

-- `a / c` for a positive `c`: towards zero.
abbrev pub quotient : ℤ → ℤ → ℤ
quotient (pos a) (pos c) = pos (a / c)
quotient (negsuc a) (pos c) = negate (pos ((a + 1) / c))
quotient a (negsuc c) = pos 0

unfoldable pub compute_agg : AggType → AggState → ℤ
compute_agg agg_sum s = s.sum
compute_agg agg_count s = s.count
compute_agg agg_avg s = if ltb_ℤ (pos 0) s.count then quotient s.sum s.count else pos 0
compute_agg agg_min s = s.min
compute_agg agg_max s = s.max

pub record AggregateView {ℓ κ} (T : Type ℓ) (C : Type κ) : Type (ℓ ⊔ κ) where
  pub source_table : T
  pub key_fn : Row C → Row C
  pub value_fn : Row C → ℤ
  pub agg_type : AggType
  pub agg_states : Umap (Row C) AggState
  pub result : ZSet (Row C)
  pub delta : ZSet (Row C)
  pub version : ℕ

module _ {ℓ κ} {T : Type ℓ} {C : Type κ} where
  abbrev pub new_aggregate_view : T → (Row C → Row C) → (Row C → ℤ) → AggType → AggregateView T C
  new_aggregate_view table key value agg = record {
    source_table = table;
    key_fn = key;
    value_fn = value;
    agg_type = agg;
    agg_states = [];
    result = empty;
    delta = empty;
    version = 0;
  }

  unfoldable pub reset_aggregate : AggregateView T C → AggregateView T C
  reset_aggregate v = record v { agg_states = []; result = empty; delta = empty; version = 0 }

-- An `int64_t` in the column type: the variant's first alternative.
module _ {κ} {C : Type κ} ⦃er : Eq (Row C)⦄ (int_column : ℤ → C) where
  unfoldable pub make_result_row : Row C → ℤ → Row C
  make_result_row key value = key ++ (int_column value ∷ [])

  -- The same weight into the result and the delta.
  abbrev pub insert_both : Row C → ℤ → ZSet (Row C) × ZSet (Row C) → ZSet (Row C) × ZSet (Row C)
  insert_both row weight (delta, result) =
      (Zset.insert row weight delta, Zset.insert row weight result)

  -- The row of a group that had one goes.
  unfoldable pub remove_old :
      AggType → Row C → AggState → ZSet (Row C) × ZSet (Row C) → ZSet (Row C) × ZSet (Row C)
  unfolding make_result_row compute_agg
  remove_old agg key state out =
      if ltb_ℤ (pos 0) state.count
      then insert_both (make_result_row key (compute_agg agg state)) (negsuc 0) out
      else out

  -- The new state puts out its row, or goes.
  unfoldable pub add_new :
      AggType
      → Row C
      → AggState
      → Umap (Row C) AggState
      → ZSet (Row C) × ZSet (Row C)
      → Umap (Row C) AggState × (ZSet (Row C) × ZSet (Row C))
  unfolding make_result_row compute_agg
  add_new agg key state states out =
      if ltb_ℤ (pos 0) state.count
      then (states, insert_both (make_result_row key (compute_agg agg state)) (pos 1) out)
      else (Umap.erase key states, out)

  -- A round for one key: the states, the delta and the result.
  unfoldable pub aggregate_round :
      AggType
      → Row C
      → ℤ
      → ℤ
      → Umap (Row C) AggState × (ZSet (Row C) × ZSet (Row C))
      → Umap (Row C) AggState × (ZSet (Row C) × ZSet (Row C))
  unfolding remove_old add_new
  aggregate_round agg key delta_val delta_cnt (states, out) =
      let state = Umap.or_default new_state (Umap.find key states) in
      let state' : AggState = record state {
        sum = state.sum +ℤ delta_val;
        count = state.count +ℤ delta_cnt;
      } in
      add_new agg key state' (Umap.update new_state key (λ _. state') states)
        (remove_old agg key state out)

  unfoldable pub aggregate_rounds :
      AggType
      → Umap (Row C) ℤ
      → Umap (Row C) ℤ
      → Umap (Row C) AggState × (ZSet (Row C) × ZSet (Row C))
      → Umap (Row C) AggState × (ZSet (Row C) × ZSet (Row C))
  unfolding aggregate_round value_at
  aggregate_rounds agg [] delta_counts s = s
  aggregate_rounds agg ((key, delta_val) ∷ delta_values) delta_counts s =
      aggregate_rounds agg delta_values delta_counts
        (aggregate_round agg key delta_val (value_at delta_counts key) s)

module _ {κ} {C : Type κ} ⦃er : Eq (Row C)⦄ where
  -- The loop that fills `delta_values` and `delta_counts`.
  unfoldable pub group_rows :
      (Row C → Row C)
      → (Row C → ℤ)
      → ZSet (Row C)
      → Umap (Row C) ℤ × Umap (Row C) ℤ
      → Umap (Row C) ℤ × Umap (Row C) ℤ
  group_rows key_fn value_fn [] s = s
  group_rows key_fn value_fn ((row, weight) ∷ changes) (values, counts) =
      group_rows key_fn value_fn changes (
        Umap.update (pos 0) (key_fn row) (λ v. v +ℤ value_fn row *ℤ weight) values,
        Umap.update (pos 0) (key_fn row) (λ v. v +ℤ weight) counts,
      )

module _ {ℓ κ} {T : Type ℓ} {C : Type κ} ⦃et : Eq T⦄ ⦃er : Eq (Row C)⦄ (int_column : ℤ → C) where
  unfoldable pub apply_aggregate : T → ZSet (Row C) → AggregateView T C → AggregateView T C
  unfolding aggregate_rounds group_rows
  apply_aggregate table changes v =
      if table == v.source_table
      then (let (delta_values, delta_counts) = group_rows v.key_fn v.value_fn changes ([], []) in
          let (states, (delta, result)) =
            aggregate_rounds int_column v.agg_type delta_values delta_counts
              (v.agg_states, (empty, v.result)) in
          record v {
            agg_states = states;
            delta = delta;
            result = result;
            version = (v.version + 1) % 2 ^ 64;
          })
      else v
