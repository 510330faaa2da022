-- ===== src/Circuit/Nodes.antt =====
-- include/dbsp_circuit.hpp, the node types but the source. A step takes what the node's input functions return.
use duck_dbsp.Prelude.{Bool, true, false, if◌then◌else◌, not}
use duck_dbsp.Prelude.Int.{ℤ}
use duck_dbsp.Prelude.Equality.{Eq, pair_eq, int_eq}
use duck_dbsp.Zset
use duck_dbsp.Zset.{ZSet, empty}
use duck_dbsp.Indexed.{is_empty}
use duck_dbsp.Stream.{IncrementalDistinct, new_distinct, distinct_delta}
use duck_dbsp.Stream.Join.{IncrementalJoin, new_join, join_delta}
use duck_dbsp.Stream.Aggregate.{IncrementalAggregate, new_aggregate, process_sum, process_count}

pub record SinkNode {ℓ} (A : Type ℓ) : Type ℓ where
  pub integrated : ZSet A
  pub delta_own : ZSet A
  pub integrate : Bool
  pub has_output : Bool

module _ {ℓ} {A : Type ℓ} where
  abbrev pub new_sink : SinkNode A
  new_sink = record { integrated = empty; delta_own = empty; integrate = true; has_output = false }

  unfoldable pub set_table_backed : SinkNode A → SinkNode A
  set_table_backed n = record n { integrate = false; integrated = empty }

  unfoldable pub reset_sink : SinkNode A → SinkNode A
  reset_sink n = record n { integrated = empty; delta_own = empty; has_output = false }

  unfoldable pub drop_delta : SinkNode A → SinkNode A
  drop_delta n = record n { delta_own = empty; has_output = false }

  unfoldable pub set_materialized : ZSet A → SinkNode A → SinkNode A
  set_materialized state n = record {
    integrated = state;
    integrate = true;
    delta_own = empty;
    has_output = false;
  }

module _ {ℓ} {A : Type ℓ} ⦃key : Eq A⦄ where
  unfoldable pub sink_step : ZSet A → SinkNode A → SinkNode A
  sink_step delta n =
      if not (is_empty delta)
      then record n {
        delta_own = delta;
        integrated = if n.integrate then Zset.plus n.integrated delta else n.integrated;
        has_output = true;
      }
      else record n { delta_own = empty; has_output = false }

-- The output buffer of MapNode, FilterNode and UnionNode, which keep nothing else.
pub record OutputNode {ℓ} (A : Type ℓ) : Type ℓ where
  pub output : ZSet A
  pub has_output : Bool

module _ {ℓ} {A : Type ℓ} where
  -- A new node, and what `reset` and `clear_output` leave.
  abbrev pub new_output : OutputNode A
  new_output = record { output = empty; has_output = false }

  abbrev pub put_out : ZSet A → OutputNode A
  put_out z = record { output = z; has_output = not (is_empty z) }

module _ {ℓ κ} {A : Type ℓ} {B : Type κ} ⦃eb : Eq B⦄ where
  unfoldable pub map_step : (A → B) → ZSet A → OutputNode B → OutputNode B
  map_step transform_fn input n = put_out (Zset.map transform_fn input)

module _ {ℓ} {A : Type ℓ} ⦃key : Eq A⦄ where
  unfoldable pub filter_step : (A → Bool) → ZSet A → OutputNode A → OutputNode A
  filter_step predicate_fn input n = put_out (Zset.filter predicate_fn input)

  unfoldable pub union_step : ZSet A → ZSet A → OutputNode A → OutputNode A
  union_step input_1 input_2 n = put_out (Zset.plus input_1 input_2)

pub record DistinctNode {ℓ} (A : Type ℓ) : Type ℓ where
  pub distinct_op : IncrementalDistinct A
  pub out : OutputNode A

module _ {ℓ} {A : Type ℓ} where
  abbrev pub new_distinct_node : DistinctNode A
  new_distinct_node = record { distinct_op = new_distinct; out = new_output }

  unfoldable pub clear_distinct : DistinctNode A → DistinctNode A
  clear_distinct n = record n { out = new_output }

module _ {ℓ} {A : Type ℓ} ⦃key : Eq A⦄ where
  unfoldable pub distinct_step : ZSet A → DistinctNode A → DistinctNode A
  distinct_step input n =
      let (output, op) = distinct_delta n.distinct_op input in
      record { distinct_op = op; out = put_out output }

pub record JoinNode {ℓ κ μ} (A : Type ℓ) (B : Type κ) (K : Type μ) : Type (ℓ ⊔ κ ⊔ μ) where
  pub join_op : IncrementalJoin A B K
  pub out : OutputNode (A × B)

module _ {ℓ κ μ} {A : Type ℓ} {B : Type κ} {K : Type μ} where
  unfoldable pub clear_join : JoinNode A B K → JoinNode A B K
  clear_join n = record n { out = new_output }

module _ {ℓ κ μ} {A : Type ℓ} {B : Type κ} {K : Type μ} ⦃ea : Eq A⦄ ⦃eb : Eq B⦄ ⦃ek : Eq K⦄ where
  abbrev pub new_join_node : (A → K) → (B → K) → JoinNode A B K
  new_join_node key_a key_b = record { join_op = new_join key_a key_b; out = new_output }

  unfoldable pub join_step : (A → K) → (B → K) → ZSet A → ZSet B → JoinNode A B K → JoinNode A B K
  join_step key_a key_b delta_a delta_b n =
      let (output, op) = join_delta key_a key_b n.join_op (delta_a, delta_b) in
      record { join_op = op; out = put_out output }

pub data AggType : Type 0 where
  sum_type count_type : AggType

pub record AggregateNode {κ} (K : Type κ) : Type κ where
  pub agg_op : IncrementalAggregate K
  pub out : OutputNode (K × ℤ)

module _ {κ} {K : Type κ} where
  abbrev pub new_aggregate_node : AggregateNode K
  new_aggregate_node = record { agg_op = new_aggregate; out = new_output }

  unfoldable pub clear_aggregate : AggregateNode K → AggregateNode K
  clear_aggregate n = record n { out = new_output }

module _ {ℓ κ} {A : Type ℓ} {K : Type κ} ⦃ek : Eq K⦄ where
  unfoldable pub aggregate_step :
      (A → K) → (A → ℤ) → AggType → ZSet A → AggregateNode K → AggregateNode K
  aggregate_step key_fn value_fn sum_type input n =
      let (output, op) = process_sum key_fn value_fn n.agg_op input in
      record { agg_op = op; out = put_out output }
  aggregate_step key_fn value_fn count_type input n =
      let (output, op) = process_count key_fn value_fn n.agg_op input in
      record { agg_op = op; out = put_out output }

pub record IntegrationNode {ℓ} (A : Type ℓ) : Type ℓ where
  pub integrated : ZSet A
  pub has_output : Bool

module _ {ℓ} {A : Type ℓ} where
  abbrev pub new_integration_node : IntegrationNode A
  new_integration_node = record { integrated = empty; has_output = false }

module _ {ℓ} {A : Type ℓ} ⦃key : Eq A⦄ where
  unfoldable pub integration_step : ZSet A → IntegrationNode A → IntegrationNode A
  integration_step delta n = record {
    integrated = Zset.plus n.integrated delta;
    has_output = not (is_empty delta);
  }
