-- ===== src/Circuit/Pipeline.antt =====
-- A circuit of a source, a filter, a distinct and a sink. Only the first step may take rows that were
-- pushed (Circuit/Source/Moved): the others take borrowed ones.
use duck_dbsp.Prelude.{
  ◌≡◌, refl, ap, ap₂, sym, ◌∙◌, Bool, true, List, [], ◌∷◌, if◌then◌else◌, Option, some, ◌>>=◌,
}
use duck_dbsp.Prelude.Int.{ℤ, pos, ltb_ℤ}
use duck_dbsp.Prelude.Equality.{Eq}
use duck_dbsp.Zset.{ZSet, empty, get, plus, filter, distinct}
use duck_dbsp.Zset.Reduced.{empty-IsReduced, plus-IsReduced}
use duck_dbsp.Zset.Same.{◌≈◌}
use duck_dbsp.Stream.Run.{outputs, plus_all, sum_all, plus_all-IsReduced}
use duck_dbsp.Stream.{IncrementalDistinct, new_distinct, distinct_delta}
use duck_dbsp.Zset.Weights.{get-filter, get-distinct, filter-IsReduced}
use duck_dbsp.Stream.Distinct.{distinct_delta_sum}
use duck_dbsp.Circuit.{Node, Circuit, new_circuit, add_node, step, step_nodes}
use duck_dbsp.Circuit.Source.{
  SourceNode, new_source, reset_source, push_borrowed, source_step, source_output,
}
use duck_dbsp.Circuit.Source.Pushes.{
  push_all, push_all-IsFresh, new-IsFresh, IsEmptySource, first_step, borrowed_step,
}
use duck_dbsp.Circuit.Nodes.{
  SinkNode, OutputNode, DistinctNode, new_sink, new_output, new_distinct_node, filter_step,
  distinct_step, sink_step, reset_sink,
}
use duck_dbsp.Circuit.Sinks.{sink_step-integrated, sink_step-integrate}
use duck_dbsp.Circuit.Filtered.{EachReduced, filtered_all, filtered_all-get, get-plus-empty}

-- The states of the four nodes.
pub record Pipeline {ℓ} (A : Type ℓ) : Type ℓ where
  pub source : SourceNode A
  pub filtered : OutputNode A
  pub unique : DistinctNode A
  pub sink : SinkNode A

abbrev pub new_pipeline {ℓ} : {A : Type ℓ} → Pipeline A
new_pipeline = record {
  source = new_source;
  filtered = new_output;
  unique = new_distinct_node;
  sink = new_sink;
}

module _ {ℓ} {A : Type ℓ} ⦃key : Eq A⦄ where
  module _ (p : A → Bool) where
    abbrev pub source_node : Node (Pipeline A)
    source_node = record {
      id = 0;
      step = λ s. record s { source = source_step s.source };
      reset = λ s. record s { source = reset_source s.source };
    }

    abbrev pub filter_node : Node (Pipeline A)
    filter_node = record {
      id = 1;
      step = λ s. record s { filtered = filter_step p (source_output s.source) s.filtered };
      reset = λ s. record s { filtered = new_output };
    }

    abbrev pub distinct_node : Node (Pipeline A)
    distinct_node = record {
      id = 2;
      step = λ s. record s { unique = distinct_step s.filtered.output s.unique };
      reset = λ s. record s { unique = new_distinct_node };
    }

    abbrev pub sink_node : Node (Pipeline A)
    sink_node = record {
      id = 3;
      step = λ s. record s { sink = sink_step s.unique.out.output s.sink };
      reset = λ s. record s { sink = reset_sink s.sink };
    }

    abbrev pub circuit : Circuit (Pipeline A)
    circuit =
        add_node sink_node
          (add_node distinct_node (add_node filter_node (add_node source_node new_circuit)))

    -- Pushes before the first step, then steps that each take a borrowed Z-set. `none` is a push to a
    -- map without an index.
    abbrev pub borrow_steps : List (ZSet A) → Pipeline A → Pipeline A
    borrow_steps [] s = s
    borrow_steps (d ∷ ds) s =
        borrow_steps ds (step circuit (record s { source = push_borrowed d s.source })).1

    abbrev pub run_pipeline : List (ZSet A) → List (ZSet A) → Option (Pipeline A)
    run_pipeline pushed borrowed = push_all pushed new_source >>= λ n.
        some (borrow_steps borrowed (step circuit (record new_pipeline { source = n })).1)

    -- Between steps the source has nothing waiting, and the sink integrates.
    record IsReady (s : Pipeline A) : Type ℓ where
      waiting : IsEmptySource s.source
      integrates : s.sink.integrate ≡ true

    abbrev change : ZSet A → Pipeline A → ZSet A × IncrementalDistinct A
    change d s = distinct_delta s.unique.distinct_op (filter p d)

    -- A step whose source puts out `d`.
    step-IsReady :
        (d : ZSet A) (s : Pipeline A)
        → IsEmptySource (source_step s.source)
        → source_output (source_step s.source) ≡ d
        → s.sink.integrate ≡ true
        → IsReady (step circuit s).1
          × ((step circuit s).1.unique.distinct_op ≡ (change d s).1)
          × ((step circuit s).1.sink.integrated ≡ plus s.sink.integrated (change d s).0)
    unfolding step step_nodes add_node filter_step distinct_step
    step-IsReady d s idle out integrates =
        let got = source_output (source_step s.source) in
        let delta = (distinct_delta s.unique.distinct_op (filter p got)).0 in
        (
          record { waiting = idle; integrates = sink_step-integrate delta s.sink ∙ integrates },
          ap (λ z. (distinct_delta s.unique.distinct_op (filter p z)).1) out,
          sink_step-integrated delta s.sink integrates
              ∙ ap
                  (λ z. plus s.sink.integrated (distinct_delta s.unique.distinct_op (filter p z)).0)
                  out,
        )

    borrow_steps-integrated :
        (ds : List (ZSet A)) (s : Pipeline A)
        → IsReady s
        → (borrow_steps ds s).sink.integrated
          ≡ plus_all s.sink.integrated
              (outputs distinct_delta s.unique.distinct_op (filtered_all p ds))
    borrow_steps-integrated [] s ready = refl
    borrow_steps-integrated (d ∷ ds) s ready =
        let s' : Pipeline A = record s { source = push_borrowed d s.source } in
        let (idle, out) = borrowed_step d s.source ready.waiting in
        let (next, op, sum) = step-IsReady d s' idle out ready.integrates in
        borrow_steps-integrated ds (step circuit s').1 next
        ∙ ap₂ (λ z o. plus_all z (outputs distinct_delta o (filtered_all p ds))) sum op

    -- The first step after the pushes, and the others.
    run_pipeline-integrated :
        (pushed borrowed : List (ZSet A))
        → (s : Pipeline A) × (run_pipeline pushed borrowed ≡ some s)
          × (s.sink.integrated
              ≡ plus_all empty (
                  outputs distinct_delta new_distinct (filtered_all p (sum_all pushed ∷ borrowed))))
    run_pipeline-integrated pushed borrowed =
        let (n, done, fresh, held) = push_all-IsFresh pushed new_source new-IsFresh in
        let s : Pipeline A = record new_pipeline { source = n } in
        let (idle, out) = first_step n fresh in
        let (next, op, sum) = step-IsReady (sum_all pushed) s idle (out ∙ held) refl in
        (
          borrow_steps borrowed (step circuit s).1,
          ap
              (λ o. o >>= λ m.
                some (borrow_steps borrowed (step circuit (record new_pipeline { source = m })).1))
              done,
          borrow_steps-integrated borrowed (step circuit s).1 next
              ∙ ap₂ (λ z o. plus_all z (outputs distinct_delta o (filtered_all p borrowed))) sum op,
        )

  -- Any Z-sets may be pushed to a new pipeline before its first step, and after that step and any
  -- further steps, each with a reduced Z-set that was borrowed for it, the sink's materialized result
  -- is `distinct` of the filtered sum of what was pushed and borrowed.
  pub pipeline-run :
      (p : A → Bool) (pushed borrowed : List (ZSet A))
      → EachReduced borrowed
      → (s : Pipeline A) × (run_pipeline p pushed borrowed ≡ some s)
        × (s.sink.integrated ≈ distinct (filter p (plus_all (sum_all pushed) borrowed)))
  pipeline-run p pushed borrowed reduced =
      let (s, ran, sum) = run_pipeline-integrated p pushed borrowed in
      let d = sum_all pushed in
      let rd = plus_all-IsReduced empty pushed empty-IsReduced in
      let z = plus_all d borrowed in
      let rz = plus_all-IsReduced d borrowed rd in
      let all = filtered_all p (d ∷ borrowed) in
      let sign : ℤ → ℤ = λ w. if ltb_ℤ (pos 0) w then pos 1 else pos 0 in
      let f = filter p d in
      let rf = filter-IsReduced d rd p in
      (
        s,
        ran,
        λ x.
            ap (λ y. get y x) sum
            ∙ distinct_delta_sum all x
            ∙ get-distinct (sum_all all) (plus_all-IsReduced empty all empty-IsReduced) x
            ∙ ap sign (
                filtered_all-get p borrowed (plus empty f) d x
                  (plus-IsReduced empty f empty-IsReduced) rd reduced
                  (get-plus-empty f x rf ∙ get-filter d rd p x)
                ∙ sym (get-filter z rz p x))
            ∙ sym (get-distinct (filter p z) (filter-IsReduced z rz p) x),
      )
