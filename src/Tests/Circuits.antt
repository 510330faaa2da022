-- ===== src/Tests/Circuits.antt =====
-- Tests of include/dbsp_circuit.hpp.
use duck_dbsp.Prelude.{ℕ, ◌+◌, ◌≡◌, refl, List, [], ◌∷◌, some, none, ltb, ◌>>=◌}
use duck_dbsp.Prelude.Int.{pos, negsuc, ◌+ℤ◌}
use duck_dbsp.Prelude.Equality.{nat_eq}
use duck_dbsp.Flat
use duck_dbsp.Zset.{ZSet, empty, insert, plus, filter, map, distinct}
use duck_dbsp.Zset.Reduced.{empty-IsReduced, insert-IsReduced}
use duck_dbsp.Zset.Same.{◌≈◌}
use duck_dbsp.Views.{Events, AllReduced, changes_to}
use duck_dbsp.CircuitViews.{filter_view, project_view, filter_project_view}
use duck_dbsp.CircuitViews.Linear.{result_of, circuit_views-run}
use duck_dbsp.Stream.Run.{plus_all, sum_all}
use duck_dbsp.Stream.{distinct_delta}
use duck_dbsp.Circuit.Source.{
  new_source, plus_slots, push, push_borrowed, source_step, source_output,
}
use duck_dbsp.Circuit.Source.Moved.{step_op, reset_op, borrow_op, run_ops, push-source_step}
use duck_dbsp.Circuit.Nodes.{filter_step, distinct_step, sink_step}
use duck_dbsp.Circuit.{step, Node, new_circuit, add_node, get_node}
use duck_dbsp.Circuit.Registry.{IsIndexed, get_node-add_node, new-IsIndexed}
use duck_dbsp.Circuit.Pipeline.{Pipeline, run_pipeline, pipeline-run}

abbrev pushes : List (ZSet ℕ)
pushes = insert 3 (pos 2) (insert 8 (pos 1) empty) ∷ insert 4 (pos 1) empty ∷ []

abbrev borrowed : List (ZSet ℕ)
borrowed = insert 3 (negsuc 0) empty ∷ insert 4 (negsuc 0) empty ∷ []

pipeline_result :
    (run_pipeline (λ n. ltb n 5) pushes borrowed >>= λ s. some s.sink.integrated)
    ≡ some ((3, pos 1) ∷ [])
unfolding insert plus step add_node plus_slots push push_borrowed source_step source_output filter
    filter_step distinct_delta distinct_step sink_step ◌+ℤ◌ Flat.find Flat.write Flat.slot_for
    Flat.erase
pipeline_result = refl

pipeline-run_example :
    (s : Pipeline ℕ) × (run_pipeline (λ n. ltb n 5) pushes borrowed ≡ some s)
    × (s.sink.integrated ≈ distinct (filter (λ n. ltb n 5) (plus_all (sum_all pushes) borrowed)))
pipeline-run_example =
    pipeline-run (λ n. ltb n 5) pushes borrowed
      (
        insert-IsReduced 3 (negsuc 0) empty empty-IsReduced,
        (insert-IsReduced 4 (negsuc 0) empty empty-IsReduced, tt),
      )

abbrev row_three : ZSet ℕ
row_three = (3, pos 1) ∷ []

push-source_step_example :
    (push row_three new_source >>= λ n.
    run_ops (step_op ∷ reset_op ∷ borrow_op row_three ∷ step_op ∷ []) (source_step n) >>= λ m.
    push row_three m)
    ≡ none
push-source_step_example =
    push-source_step row_three row_three (step_op ∷ reset_op ∷ borrow_op row_three ∷ step_op ∷ [])
      refl refl

-- Changes of tables 1 and 2.
abbrev changes : Events ℕ ℕ
changes =
    (1, insert 3 (pos 2) (insert 8 (pos 1) empty))
    ∷ (2, insert 4 (pos 1) empty)
    ∷ (1, insert 3 (negsuc 0) empty)
    ∷ []

changes-AllReduced : AllReduced changes
changes-AllReduced = (
  insert-IsReduced 3 (pos 2) _ (insert-IsReduced 8 (pos 1) empty empty-IsReduced),
  (
    insert-IsReduced 4 (pos 1) empty empty-IsReduced,
    (insert-IsReduced 3 (negsuc 0) empty empty-IsReduced, tt),
  ),
)

circuit_views-run_example :
    (result_of (filter_view (λ n. ltb n 5)) 1 changes
      ≈ filter (λ n. ltb n 5) (sum_all (changes_to 1 changes)))
    × (result_of (project_view (λ n. n + 1)) 1 changes
        ≈ map (λ n. n + 1) (sum_all (changes_to 1 changes)))
    × (result_of (filter_project_view (λ n. ltb n 5) (λ n. n + 1)) 1 changes
        ≈ map (λ n. n + 1) (filter (λ n. ltb n 5) (sum_all (changes_to 1 changes))))
circuit_views-run_example =
    circuit_views-run 1 (λ n. ltb n 5) (λ n. n + 1) changes changes-AllReduced

abbrev counter : Node ℕ
counter = record { id = 7; step = λ n. n; reset = λ n. 0 }

get_node-add_node_example :
    (get_node 7 (add_node counter new_circuit) ≡ some counter)
    × IsIndexed (add_node counter new_circuit)
get_node-add_node_example = get_node-add_node counter new_circuit 7 (new-IsIndexed ℕ)
