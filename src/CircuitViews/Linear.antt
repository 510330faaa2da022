-- ===== src/CircuitViews/Linear.antt =====
-- After any changes, a view that filters and projects holds its query on the sum of them.
use mathlib.Core.Path.{subst}
use duck_dbsp.Prelude.{
  ◌≡◌, refl, ap, sym, ◌∙◌, Bool, true, [], ◌∷◌, if◌then◌else◌, inl, inr, Bool-cases,
}
use duck_dbsp.Prelude.Int.{ℤ, pos, ◌+ℤ◌, int_laws}
use duck_dbsp.Prelude.Equality.{Eq, ◌==◌}
use duck_dbsp.Zset.{ZSet, empty, insert, plus, filter, map, flatmap}
use duck_dbsp.Zset.Reduced.{
  IsReduced, empty-IsReduced, plus-IsReduced, flatmap-IsReduced, map-IsReduced,
}
use duck_dbsp.Zset.Total.{
  total, total-plus, total-empty, total-flatmap, total-map, total-insert-one,
}
use duck_dbsp.Zset.Linear.{total_congr}
use duck_dbsp.Zset.Same.{◌≈◌, total-eq_of_same, same_of_total}
use duck_dbsp.Zset.Assign.{unit_at, get-total}
use duck_dbsp.Zset.Weights.{get-filter, filter-IsReduced}
use duck_dbsp.Stream.Run.{plus_all, sum_all, plus_all-IsReduced}
use duck_dbsp.Views.{Events, AllReduced, run, changes_to}
use duck_dbsp.Views.Linear.{passed, total-passed}
use duck_dbsp.Circuit.Sinks.{sink_step-integrated, sink_step-integrate}
use duck_dbsp.Circuit.Nodes.{SinkNode}
use duck_dbsp.CircuitViews.{
  Operators, CircuitView, new_view, apply_changes, get_result, filter_view, project_view,
  filter_project_view,
}
use duck_dbsp.CircuitViews.Query.{
  IsQuery, IsIdle, new_view-IsIdle, apply_changes-sink, filter-IsQuery, project-IsQuery,
  filter_project-IsQuery,
}

module _ {ℓ} {R : Type ℓ} ⦃er : Eq R⦄ where
  -- `filter` as a sum over the rows.
  module _ (p : R → Bool) (z : ZSet R) (r : IsReduced z) where
    abbrev one : R → ZSet R
    one x = if p x then insert x (pos 1) empty else empty

    total-one : (g : R → ℤ) → total g (flatmap one z) ≡ total (passed p g) z
    total-one g =
        total-flatmap g one z
        ∙ total_congr (λ x. total g (one x)) (passed p g) z
            (λ x. elim (Bool-cases (p x)) [
              | inl e ↦ rw e (omega (int_laws, total-insert-one g x empty, total-empty g))
              | inr e ↦ rw e (total-empty g)
            ])

    total-filter : (g : R → ℤ) → total g (filter p z) ≡ total (passed p g) z
    total-filter g =
        let reduced = flatmap-IsReduced one z in
        total-eq_of_same g (filter p z) (flatmap one z) (filter-IsReduced z r p) reduced (λ x.
          get-filter z r p x
          ∙ ap (λ (w : ℤ). if p x then w else pos 0) (get-total z x r)
          ∙ sym (get-total (flatmap one z) x reduced ∙ total-one (unit_at x) ∙ total-passed p z x))
        ∙ total-one g

  -- A query whose result is a sum over the rows.
  pub record IsLinear (query : ZSet R → ZSet R) : Type ℓ where
    pub form : (R → ℤ) → R → ℤ
    pub total-query : (g : R → ℤ) (z : ZSet R) → IsReduced z → total g (query z) ≡ total (form g) z
    pub query-IsReduced : (z : ZSet R) → IsReduced z → IsReduced (query z)

  filter-IsLinear : (p : R → Bool) → IsLinear (filter p)
  filter-IsLinear p = record {
    form = passed p;
    total-query = λ g z r. total-filter p z r g;
    query-IsReduced = λ z r. filter-IsReduced z r p;
  }

  project-IsLinear : (f : R → R) → IsLinear (map f)
  project-IsLinear f = record {
    form = λ g x. g (f x);
    total-query = λ g z r. total-map g f z;
    query-IsReduced = λ z r. map-IsReduced f z;
  }

  filter_project-IsLinear : (p : R → Bool) (f : R → R) → IsLinear (λ z. map f (filter p z))
  filter_project-IsLinear p f = record {
    form = λ g. passed p (λ x. g (f x));
    total-query = λ g z r. total-map g f (filter p z) ∙ total-filter p z r (λ x. g (f x));
    query-IsReduced = λ z r. map-IsReduced f (filter p z);
  }

module _ {ℓ κ μ} {T : Type ℓ} {R : Type κ} {M : Type μ} ⦃et : Eq T⦄ ⦃er : Eq R⦄
    (ops : Operators R M) (query : ZSet R → ZSet R) (q : IsQuery ops query)
    (l : IsLinear query) where
  -- The sink integrates, and holds the query on `z`.
  record HoldsQuery (v : CircuitView T R M) (z : ZSet R) : Type (ℓ ⊔ κ ⊔ μ) where
    idle : IsIdle ops v
    integrates : v.state.sink.integrate ≡ true
    reduced : IsReduced (get_result v)
    sum : (g : R → ℤ) → total g (get_result v) ≡ total (l.form g) z

  seen-IsReduced :
      (t : T) (changes : ZSet R) (v : CircuitView T R M)
      → IsReduced changes
      → IsReduced (if t == v.source_table then changes else empty)
  seen-IsReduced t changes v r = elim (Bool-cases (t == v.source_table)) [
    | inl e ↦ rw e r
    | inr e ↦ rw e empty-IsReduced
  ]

  total-seen :
      (t : T) (changes : ZSet R) (v : CircuitView T R M) (z : ZSet R) (g : R → ℤ)
      → total g (if t == v.source_table then plus z changes else z)
        ≡ total g z +ℤ total g (if t == v.source_table then changes else empty)
  total-seen t changes v z g = elim (Bool-cases (t == v.source_table)) [
    | inl e ↦ rw e (total-plus g z changes)
    | inr e ↦ rw e (omega (int_laws, total-empty g))
  ]

  apply_changes-HoldsQuery :
      (t : T) (changes : ZSet R) (v : CircuitView T R M) (z : ZSet R)
      → IsReduced changes
      → HoldsQuery v z
      → HoldsQuery
          (apply_changes ops t changes v)
          (if t == v.source_table then plus z changes else z)
  unfolding get_result
  apply_changes-HoldsQuery t changes v z r h =
      let v' = apply_changes ops t changes v in
      let seen = if t == v.source_table then changes else empty in
      let delta = query seen in
      let (idle, sink) = apply_changes-sink ops query q t changes v h.idle in
      let kept = sink_step-integrate delta v.state.sink in
      let grown : get_result v' ≡ plus (get_result v) delta =
        ap (λ (n : SinkNode R). n.integrated) sink
        ∙ sink_step-integrated delta v.state.sink h.integrates in
      record {
        idle = idle;
        integrates = ap (λ (n : SinkNode R). n.integrate) sink ∙ kept ∙ h.integrates;
        reduced = rw grown (plus-IsReduced (get_result v) delta h.reduced);
        sum = λ g. omega (
          int_laws,
          ap (total g) grown,
          total-plus g (get_result v) delta,
          h.sum g,
          l.total-query g seen (seen-IsReduced t changes v r),
          total-seen t changes v z (l.form g),
        );
      }

  same_table :
      (t : T) (changes : ZSet R) (v : CircuitView T R M)
      → (apply_changes ops t changes v).source_table ≡ v.source_table
  unfolding apply_changes
  same_table t changes v = elim (Bool-cases (t == v.source_table)) [
    | inl e ↦ rw e refl
    | inr e ↦ rw e refl
  ]

  run-HoldsQuery :
      (events : Events T R) (table : T) (v : CircuitView T R M) (z : ZSet R)
      → v.source_table ≡ table
      → AllReduced events
      → HoldsQuery v z
      → HoldsQuery (run (apply_changes ops) events v) (plus_all z (changes_to table events))
  run-HoldsQuery [] table v z same rs h = h
  run-HoldsQuery ((t, changes) ∷ events) table v z same rs h =
      let v' = apply_changes ops t changes v in
      let step = apply_changes-HoldsQuery t changes v z rs.0 h in
      let next =
        run-HoldsQuery events table v' (if t == table then plus z changes else z)
          (same_table t changes v ∙ same) rs.1
          (subst (λ (q : T). HoldsQuery v' (if t == q then plus z changes else z)) same step) in
      elim (Bool-cases (t == table)) [ inl e ↦ rw e (rw e at next) | inr e ↦ rw e (rw e at next) ]

  new_view-HoldsQuery : (table : T) → HoldsQuery (new_view ops table) empty
  unfolding new_view get_result
  new_view-HoldsQuery table = record {
    idle = new_view-IsIdle ops query q table;
    integrates = refl;
    reduced = empty-IsReduced;
    sum = λ g. omega (int_laws, total-empty g, total-empty (l.form g));
  }

  view-run :
      (table : T) (events : Events T R)
      → AllReduced events
      → get_result (run (apply_changes ops) events (new_view ops table))
        ≈ query (sum_all (changes_to table events))
  unfolding new_view
  view-run table events reduced =
      let v = run (apply_changes ops) events (new_view ops table) in
      let z = sum_all (changes_to table events) in
      let rz = plus_all-IsReduced empty (changes_to table events) empty-IsReduced in
      let h =
        run-HoldsQuery events table (new_view ops table) empty refl reduced
          (new_view-HoldsQuery table) in
      same_of_total (get_result v) (query z) h.reduced (l.query-IsReduced z rz)
        (λ g. h.sum g ∙ sym (l.total-query g z rz))

module _ {ℓ κ} {T : Type ℓ} {R : Type κ} ⦃et : Eq T⦄ ⦃er : Eq R⦄ where
  -- The result of the view that these operators make, after changes of tables.
  abbrev pub result_of {μ} : {M : Type μ} → Operators R M → T → Events T R → ZSet R
  result_of ops table events = get_result (run (apply_changes ops) events (new_view ops table))

  -- After any reduced changes of tables, CircuitFilterView, CircuitProjectView and
  -- CircuitFilterProjectView hold their queries on the sum of the changes of their source table.
  pub circuit_views-run :
      (table : T) (p : R → Bool) (f : R → R) (events : Events T R)
      → AllReduced events
      → let z = sum_all (changes_to table events) in
        (result_of (filter_view p) table events ≈ filter p z)
        × (result_of (project_view f) table events ≈ map f z)
        × (result_of (filter_project_view p f) table events ≈ map f (filter p z))
  circuit_views-run table p f events reduced = (
    view-run (filter_view p) (filter p) (filter-IsQuery p) (filter-IsLinear p) table events reduced,
    view-run (project_view f) (map f) (project-IsQuery f) (project-IsLinear f) table events reduced,
    view-run (filter_project_view p f) (λ z. map f (filter p z)) (filter_project-IsQuery p f)
        (filter_project-IsLinear p f) table events reduced,
  )
