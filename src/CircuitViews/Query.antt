-- ===== src/CircuitViews/Query.antt =====
-- A view's delta is its query on the changes, and its result is what its deltas add up to.
use mathlib.Core.Path.{subst}
use duck_dbsp.Prelude.{
  ◌+◌, ◌%◌, ◌^◌, ◌≡◌, refl, ap, ap₂, sym, ◌∙◌, Bool, false, List, [], ◌∷◌, ◌++◌, if◌then◌else◌, inl,
  inr, Bool-cases, none,
}
use duck_dbsp.Prelude.Equality.{Eq, ◌==◌}
use duck_dbsp.Zset.{ZSet, empty, filter, map}
use duck_dbsp.Circuit.{Node, Circuit, new_circuit, add_node, next_node_id, step, step_nodes}
use duck_dbsp.Circuit.Source.{
  SourceNode, no_index, push_borrowed, source_step, source_output, clear_source, take_pending,
}
use duck_dbsp.Circuit.Nodes.{sink_step, filter_step, map_step}
use duck_dbsp.CircuitViews.{
  ViewNodes, Operators, CircuitView, add_nodes, sink_node, all_nodes, trim_outputs, new_view,
  apply_changes, filter_view, project_view, filter_project_view,
}

module _ {ℓ} {S : Type ℓ} where
  step_nodes-append :
      (nodes more : List (Node S)) (s : S)
      → step_nodes (nodes ++ more) s ≡ step_nodes more (step_nodes nodes s)
  unfolding step_nodes
  step_nodes-append [] more s = refl
  step_nodes-append (node ∷ nodes) more s = step_nodes-append nodes more (node.step s)

  -- The ids that nodes get do not matter to a step.
  step_nodes-add_nodes :
      (nodes : List (Node S)) (c : Circuit S) (s : S)
      → step_nodes (add_nodes nodes c).nodes s ≡ step_nodes nodes (step_nodes c.nodes s)
  unfolding add_nodes add_node next_node_id step_nodes
  step_nodes-add_nodes [] c s = refl
  step_nodes-add_nodes (node ∷ nodes) c s =
      let given : Node S = record node { id = c.next_id } in
      step_nodes-add_nodes nodes (add_node given (record c { next_id = (c.next_id + 1) % 2 ^ 64 }))
        s
      ∙ ap (step_nodes nodes) (step_nodes-append c.nodes (given ∷ []) s)

module _ {ℓ} {R : Type ℓ} where
  pub record IsIdleSource (n : SourceNode R) : Type ℓ where
    pub never_pushed : n.pending_delta ≡ no_index
    pub no_borrowed : n.borrowed ≡ none
    pub nothing : n.has_pending ≡ false

module _ {ℓ} {R : Type ℓ} ⦃er : Eq R⦄ where
  borrowed-output :
      (changes : ZSet R) (n : SourceNode R)
      → IsIdleSource n
      → source_output (source_step (push_borrowed changes n)) ≡ changes
  unfolding source_output source_step push_borrowed take_pending
  borrowed-output changes n idle = rw idle.never_pushed refl

  borrowed-IsIdleSource :
      (changes : ZSet R) (n : SourceNode R)
      → IsIdleSource n
      → IsIdleSource (clear_source (source_step (push_borrowed changes n)))
  unfolding clear_source source_step push_borrowed take_pending
  borrowed-IsIdleSource changes n idle =
      rw idle.never_pushed (record { never_pushed = refl; no_borrowed = refl; nothing = refl })

  idle-output : (n : SourceNode R) → IsIdleSource n → source_output (source_step n) ≡ empty
  unfolding source_output source_step
  idle-output n idle = rw idle.nothing refl

  idle-IsIdleSource : (n : SourceNode R) → IsIdleSource n → IsIdleSource (source_step n)
  unfolding source_step
  idle-IsIdleSource n idle =
      rw idle.nothing (record {
        never_pushed = idle.never_pushed;
        no_borrowed = idle.no_borrowed;
        nothing = refl;
      })

module _ {ℓ κ} {R : Type ℓ} {M : Type κ} ⦃er : Eq R⦄ where
  -- The operators put out the query on what the source puts out, and leave the source and the sink.
  pub record IsQuery (ops : Operators R M) (query : ZSet R → ZSet R) : Type (ℓ ⊔ κ) where
    pub output :
        (s : ViewNodes R M)
        → ops.last_output (step_nodes ops.nodes s).middle ≡ query (source_output s.source)
    pub same_source : (s : ViewNodes R M) → (step_nodes ops.nodes s).source ≡ s.source
    pub same_sink : (s : ViewNodes R M) → (step_nodes ops.nodes s).sink ≡ s.sink

  step-IsQuery :
      (ops : Operators R M) (query : ZSet R → ZSet R) (s : ViewNodes R M)
      → IsQuery ops query
      → let s' = step_nodes (all_nodes ops) s in
        (s'.source ≡ source_step s.source)
        × (s'.sink ≡ sink_step (query (source_output (source_step s.source))) s.sink)
  unfolding step_nodes
  step-IsQuery ops query s q =
      let next : ViewNodes R M = record s { source = source_step s.source } in
      rw (step_nodes-append ops.nodes (sink_node ops.last_output ∷ []) next)
        (q.same_source next, ap₂ sink_step (q.output next) (q.same_sink next))

  -- Between changes the source is idle, and the circuit is the one that was built.
  pub record IsIdle {μ} {T : Type μ} (ops : Operators R M) (v : CircuitView T R M)
      : Type (ℓ ⊔ κ) where
    pub built : (s : ViewNodes R M) → step_nodes v.circuit.nodes s ≡ step_nodes (all_nodes ops) s
    pub idle : IsIdleSource v.state.source

module _ {ℓ κ μ} {T : Type ℓ} {R : Type κ} {M : Type μ} ⦃et : Eq T⦄ ⦃er : Eq R⦄
    (ops : Operators R M) (query : ZSet R → ZSet R) (q : IsQuery ops query) where
  pub new_view-IsIdle : (table : T) → IsIdle ops (new_view ops table)
  unfolding new_view step_nodes
  new_view-IsIdle table = record {
    built = λ s. step_nodes-add_nodes (all_nodes ops) new_circuit s;
    idle = record { never_pushed = refl; no_borrowed = refl; nothing = refl };
  }

  -- The sink takes the query on the changes of the source table.
  pub apply_changes-sink :
      (t : T) (changes : ZSet R) (v : CircuitView T R M)
      → IsIdle ops v
      → IsIdle ops (apply_changes ops t changes v)
        × ((apply_changes ops t changes v).state.sink
            ≡ sink_step (query (if t == v.source_table then changes else empty)) v.state.sink)
  unfolding apply_changes step trim_outputs
  apply_changes-sink t changes v idle = elim (Bool-cases (t == v.source_table)) [
    | inl e ↦
        let pushed : ViewNodes R M = record (v.state) {
          source = push_borrowed changes v.state.source;
        } in
        let stepped = step-IsQuery ops query pushed q in
        rw e (
          record {
            built = idle.built;
            idle =
                subst IsIdleSource
                  (sym (
                    ap (λ (s : ViewNodes R M). clear_source s.source) (idle.built pushed)
                    ∙ ap clear_source stepped.0))
                  (borrowed-IsIdleSource changes v.state.source idle.idle);
          },
          ap (λ (s : ViewNodes R M). s.sink) (idle.built pushed)
              ∙ stepped.1
              ∙ ap (λ (z : ZSet R). sink_step (query z) v.state.sink)
                  (borrowed-output changes v.state.source idle.idle),
        )
    | inr e ↦
        let stepped = step-IsQuery ops query v.state q in
        rw e (
          record {
            built = idle.built;
            idle =
                subst IsIdleSource
                  (sym (ap (λ (s : ViewNodes R M). s.source) (idle.built v.state) ∙ stepped.0))
                  (idle-IsIdleSource v.state.source idle.idle);
          },
          ap (λ (s : ViewNodes R M). s.sink) (idle.built v.state)
              ∙ stepped.1
              ∙ ap (λ (z : ZSet R). sink_step (query z) v.state.sink)
                  (idle-output v.state.source idle.idle),
        )
  ]

module _ {ℓ} {R : Type ℓ} ⦃er : Eq R⦄ where
  pub filter-IsQuery : (p : R → Bool) → IsQuery (filter_view p) (filter p)
  unfolding filter_view filter_step step_nodes
  filter-IsQuery p = record { output = λ s. refl; same_source = λ s. refl; same_sink = λ s. refl }

  pub project-IsQuery : (f : R → R) → IsQuery (project_view f) (map f)
  unfolding project_view map_step step_nodes
  project-IsQuery f = record { output = λ s. refl; same_source = λ s. refl; same_sink = λ s. refl }

  pub filter_project-IsQuery :
      (p : R → Bool) (f : R → R) → IsQuery (filter_project_view p f) (λ z. map f (filter p z))
  unfolding filter_project_view filter_step map_step step_nodes
  filter_project-IsQuery p f = record {
    output = λ s. refl;
    same_source = λ s. refl;
    same_sink = λ s. refl;
  }
