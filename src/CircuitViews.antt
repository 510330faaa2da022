-- ===== src/CircuitViews.antt =====
-- include/dbsp_circuit_views.hpp: SingleSourceCircuitView, a circuit of a source, the operators that a
-- subclass adds, and a sink; and the views that filter and project.
pub mod Query
pub mod Linear
use duck_dbsp.Prelude.{ℕ, ◌+◌, ◌%◌, ◌^◌, Bool, true, false, List, [], ◌∷◌, ◌++◌, if◌then◌else◌}
use duck_dbsp.Prelude.Equality.{Eq, ◌==◌}
use duck_dbsp.Zset.{ZSet, empty}
use duck_dbsp.Circuit
use duck_dbsp.Circuit.{Node, Circuit, new_circuit, add_node, next_node_id, step}
use duck_dbsp.Circuit.Source.{
  SourceNode, new_source, push_borrowed, source_step, source_output, clear_source, reset_source,
}
use duck_dbsp.Circuit.Nodes.{
  SinkNode, OutputNode, new_sink, new_output, sink_step, reset_sink, drop_delta, set_table_backed,
  set_materialized, filter_step, map_step,
}

-- The states of the source, of a subclass's operators, and of the sink.
pub record ViewNodes {ℓ κ} (R : Type ℓ) (M : Type κ) : Type (ℓ ⊔ κ) where
  pub source : SourceNode R
  pub middle : M
  pub sink : SinkNode R

-- What a subclass adds: its operator nodes in order, with no ids yet, and the output of the last one.
pub record Operators {ℓ κ} (R : Type ℓ) (M : Type κ) : Type (ℓ ⊔ κ) where
  pub new_middle : M
  pub nodes : List (Node (ViewNodes R M))
  pub last_output : M → ZSet R
  pub clear_outputs : M → M

pub record CircuitView {ℓ κ μ} (T : Type ℓ) (R : Type κ) (M : Type μ) : Type (ℓ ⊔ κ ⊔ μ) where
  pub source_table : T
  pub circuit : Circuit (ViewNodes R M)
  pub state : ViewNodes R M
  pub version : ℕ

module _ {ℓ} {S : Type ℓ} where
  -- Each node gets the circuit's next id.
  unfoldable pub add_nodes : List (Node S) → Circuit S → Circuit S
  unfolding add_node next_node_id
  add_nodes [] c = c
  add_nodes (node ∷ nodes) c =
      let (id, c') = next_node_id c in add_nodes nodes (add_node (record node { id = id }) c')

module _ {ℓ κ} {R : Type ℓ} {M : Type κ} ⦃er : Eq R⦄ where
  abbrev pub source_node : Node (ViewNodes R M)
  source_node = record {
    id = 0;
    step = λ s. record s { source = source_step s.source };
    reset = λ s. record s { source = reset_source s.source };
  }

  abbrev pub sink_node : (M → ZSet R) → Node (ViewNodes R M)
  sink_node output = record {
    id = 0;
    step = λ s. record s { sink = sink_step (output s.middle) s.sink };
    reset = λ s. record s { sink = reset_sink s.sink };
  }

  -- The constructor's source, the subclass's nodes, and `finish`.
  abbrev pub all_nodes : Operators R M → List (Node (ViewNodes R M))
  all_nodes ops = source_node ∷ (ops.nodes ++ (sink_node ops.last_output ∷ []))

  -- Every node's output but the sink's is dropped.
  unfoldable pub trim_outputs : Operators R M → ViewNodes R M → ViewNodes R M
  trim_outputs ops s = record s {
    source = clear_source s.source;
    middle = ops.clear_outputs s.middle;
  }

module _ {ℓ κ μ} {T : Type ℓ} {R : Type κ} {M : Type μ} ⦃et : Eq T⦄ ⦃er : Eq R⦄
    (ops : Operators R M) where
  unfoldable pub new_view : T → CircuitView T R M
  unfolding add_nodes
  new_view table = record {
    source_table = table;
    circuit = add_nodes (all_nodes ops) new_circuit;
    state = record { source = new_source; middle = ops.new_middle; sink = new_sink };
    version = 0;
  }

  unfoldable pub apply_changes : T → ZSet R → CircuitView T R M → CircuitView T R M
  unfolding step push_borrowed trim_outputs
  apply_changes table changes v =
      let pushed : ViewNodes R M = record (v.state) {
        source = push_borrowed changes v.state.source;
      } in
      let (c, s) = step v.circuit pushed in
      let (c', s') = step v.circuit v.state in
      if table == v.source_table
      then record v { circuit = c; state = trim_outputs ops s; version = (v.version + 1) % 2 ^ 64 }
      else record v { circuit = c'; state = s' }

  unfoldable pub reset : CircuitView T R M → CircuitView T R M
  reset v =
      let (c, s) = Circuit.reset v.circuit v.state in
      record v { circuit = c; state = s; version = 0 }

module _ {ℓ κ μ} {T : Type ℓ} {R : Type κ} {M : Type μ} where
  abbrev pub with_sink : (SinkNode R → SinkNode R) → CircuitView T R M → CircuitView T R M
  with_sink f v = record v { state = record (v.state) { sink = f v.state.sink } }

  unfoldable pub drop_view_delta : CircuitView T R M → CircuitView T R M
  unfolding drop_delta
  drop_view_delta v = with_sink drop_delta v

  -- It answers `true`.
  unfoldable pub set_view_table_backed : CircuitView T R M → Bool × CircuitView T R M
  unfolding set_table_backed
  set_view_table_backed v = (true, with_sink set_table_backed v)

  unfoldable pub set_result : ZSet R → CircuitView T R M → CircuitView T R M
  unfolding set_materialized
  set_result result v = record (with_sink (set_materialized result) v) {
    version = (v.version + 1) % 2 ^ 64;
  }

  unfoldable pub get_result : CircuitView T R M → ZSet R
  get_result v = v.state.sink.integrated

  unfoldable pub get_delta : CircuitView T R M → ZSet R
  get_delta v = v.state.sink.delta_own

module _ {ℓ} {R : Type ℓ} ⦃er : Eq R⦄ where
  -- CircuitFilterView.
  unfoldable pub filter_view : (R → Bool) → Operators R (OutputNode R)
  unfolding filter_step
  filter_view predicate = record {
    new_middle = new_output;
    nodes =
        record {
          id = 0;
          step = λ s. record s { middle = filter_step predicate (source_output s.source) s.middle };
          reset = λ s. record s { middle = new_output };
        }
        ∷ [];
    last_output = λ m. m.output;
    clear_outputs = λ m. new_output;
  }

  -- CircuitProjectView.
  unfoldable pub project_view : (R → R) → Operators R (OutputNode R)
  unfolding map_step
  project_view project = record {
    new_middle = new_output;
    nodes =
        record {
          id = 0;
          step = λ s. record s { middle = map_step project (source_output s.source) s.middle };
          reset = λ s. record s { middle = new_output };
        }
        ∷ [];
    last_output = λ m. m.output;
    clear_outputs = λ m. new_output;
  }

  -- CircuitFilterProjectView: the states of the filter and of the map.
  unfoldable pub filter_project_view :
      (R → Bool) → (R → R) → Operators R (OutputNode R × OutputNode R)
  unfolding filter_step map_step
  filter_project_view predicate project = record {
    new_middle = (new_output, new_output);
    nodes =
        record {
          id = 0;
          step = λ s. record s {
            middle = (filter_step predicate (source_output s.source) s.middle.0, s.middle.1);
          };
          reset = λ s. record s { middle = (new_output, s.middle.1) };
        }
        ∷ record {
          id = 0;
          step = λ s. record s {
            middle = (s.middle.0, map_step project s.middle.0.output s.middle.1);
          };
          reset = λ s. record s { middle = (s.middle.0, new_output) };
        }
        ∷ [];
    last_output = λ m. m.1.output;
    clear_outputs = λ m. (new_output, new_output);
  }
