-- ===== src/Views/Linear.antt =====
-- What the views of one table hold: the query on all changes of that table.
use duck_dbsp.Prelude.{
  ◌+◌, ◌%◌, ◌^◌, ◌≡◌, refl, ap, sym, ◌∙◌, Bool, [], ◌∷◌, if◌then◌else◌, inl, inr, Bool-cases, arith,
}
use duck_dbsp.Prelude.Int.{ℤ, pos, ◌+ℤ◌, int_laws, mul-zero}
use duck_dbsp.Prelude.Equality.{Eq, ◌==◌}
use duck_dbsp.Flat.Measures.{tally}
use duck_dbsp.Zset.{ZSet, empty, get, insert, plus, map, filter, distinct}
use duck_dbsp.Zset.Reduced.{IsReduced, insert-IsReduced, empty-IsReduced, map-IsReduced}
use duck_dbsp.Zset.Total.{total, total-insert, total-plus, total-empty, total-map}
use duck_dbsp.Zset.Assign.{unit_at, get-total}
use duck_dbsp.Zset.Weights.{get-filter}
use duck_dbsp.Zset.Linear.{total_congr, total-zero}
use duck_dbsp.Zset.Same.{◌≈◌, same_of_total}
use duck_dbsp.Stream.Run.{plus_all, sum_all, plus_all-IsReduced, outputs}
use duck_dbsp.Stream.{distinct_delta}
use duck_dbsp.Stream.Distinct.{distinct_delta_sum}
use duck_dbsp.Views.{Events, run, changes_to}
use duck_dbsp.Views.Single.{
  FilteredView, ProjectedView, DistinctView, filter_rows, project_rows, insert_delta,
  apply_filtered, apply_projected, apply_distinct, new_filtered, new_projected, new_distinct_view,
}

module _ {κ} {R : Type κ} ⦃er : Eq R⦄ where
  abbrev pub passed : (R → Bool) → (R → ℤ) → R → ℤ
  passed p g x = if p x then g x else pos 0

  filter_rows-total :
      (p : R → Bool) (g : R → ℤ) (changes delta result : ZSet R)
      → total g (filter_rows p changes (delta, result)).1
        ≡ total g result +ℤ total (passed p g) changes
  unfolding filter_rows total tally
  filter_rows-total p g [] delta result = omega int_laws
  filter_rows-total p g ((x, w) ∷ changes) delta result = elim (Bool-cases (p x)) [
    | inl e ↦
        rw (filter_rows, e)
          (omega (
            int_laws,
            filter_rows-total p g changes (insert x w delta) (insert x w result),
            total-insert g x w result,
          ))
    | inr e ↦
        rw (filter_rows, e)
          (omega (int_laws, mul-zero w, filter_rows-total p g changes delta result))
  ]

  filter_rows-IsReduced :
      (p : R → Bool) (changes delta result : ZSet R)
      → IsReduced delta
      → IsReduced result
      → IsReduced (filter_rows p changes (delta, result)).0
        × IsReduced (filter_rows p changes (delta, result)).1
  unfolding filter_rows
  filter_rows-IsReduced p [] delta result rd r = (rd, r)
  filter_rows-IsReduced p ((x, w) ∷ changes) delta result rd r = elim (Bool-cases (p x)) [
    | inl e ↦
        rw (filter_rows, e)
          (filter_rows-IsReduced p changes (insert x w delta) (insert x w result)
            (insert-IsReduced x w delta rd) (insert-IsReduced x w result r))
    | inr e ↦ rw (filter_rows, e) (filter_rows-IsReduced p changes delta result rd r)
  ]

  pub total-passed :
      (p : R → Bool) (z : ZSet R) (x : R)
      → total (passed p (unit_at x)) z ≡ (if p x then total (unit_at x) z else pos 0)
  total-passed p z x = elim (Bool-cases (p x)) [
    | inl e ↦
        rw e
          (total_congr (passed p (unit_at x)) (unit_at x) z (λ y. ground (arith, er.equal_iff y x)))
    | inr e ↦ rw e (
        total_congr (passed p (unit_at x)) (λ _. pos 0) z (λ y. ground (arith, er.equal_iff y x))
        ∙ total-zero z)
  ]

  project_rows-total :
      (f : R → R) (g : R → ℤ) (changes delta result : ZSet R)
      → total g (project_rows f changes (delta, result)).1
        ≡ total g result +ℤ total (λ x. g (f x)) changes
  unfolding project_rows total tally
  project_rows-total f g [] delta result = omega int_laws
  project_rows-total f g ((x, w) ∷ changes) delta result = omega (
    int_laws,
    project_rows-total f g changes (insert (f x) w delta) (insert (f x) w result),
    total-insert g (f x) w result,
  )

  project_rows-IsReduced :
      (f : R → R) (changes delta result : ZSet R)
      → IsReduced delta
      → IsReduced result
      → IsReduced (project_rows f changes (delta, result)).0
        × IsReduced (project_rows f changes (delta, result)).1
  unfolding project_rows
  project_rows-IsReduced f [] delta result rd r = (rd, r)
  project_rows-IsReduced f ((x, w) ∷ changes) delta result rd r =
      project_rows-IsReduced f changes (insert (f x) w delta) (insert (f x) w result)
        (insert-IsReduced (f x) w delta rd) (insert-IsReduced (f x) w result r)

  insert_delta-plus : (delta result : ZSet R) → insert_delta delta result ≡ plus result delta
  unfolding insert_delta plus
  insert_delta-plus [] result = refl
  insert_delta-plus ((x, w) ∷ delta) result = insert_delta-plus delta (insert x w result)

module _ {ℓ κ} {T : Type ℓ} {R : Type κ} ⦃et : Eq T⦄ ⦃er : Eq R⦄ where
  filtered_from :
      (events : Events T R) (v : FilteredView T R) (z : ZSet R)
      → IsReduced v.result
      → ((g : R → ℤ) → total g v.result ≡ total (passed v.predicate g) z)
      → let v' = run apply_filtered events v in
        IsReduced v'.result
        × ((g : R → ℤ)
            → total g v'.result
              ≡ total (passed v.predicate g) (plus_all z (changes_to v.source_table events)))
  unfolding apply_filtered
  filtered_from [] v z r h = (r, h)
  filtered_from ((table, changes) ∷ events) v z r h = elim (Bool-cases (table == v.source_table)) [
    | inl e ↦
        let s = filter_rows v.predicate changes (empty, v.result) in
        let next = (filter_rows-IsReduced v.predicate changes empty v.result empty-IsReduced r).1 in
        rw (run, apply_filtered, e)
          (filtered_from events
            (record v { delta = s.0; result = s.1; version = (v.version + 1) % 2 ^ 64 })
            (plus z changes) next
            (λ g. omega (
              int_laws,
              h g,
              filter_rows-total v.predicate g changes empty v.result,
              total-plus (passed v.predicate g) z changes,
            )))
    | inr e ↦ rw (run, apply_filtered, e) (filtered_from events v z r h)
  ]

  -- After any changes of tables, FilteredView holds the filtered sum of the changes of its source
  -- table.
  pub filtered-run :
      (t : T) (p : R → Bool) (events : Events T R)
      → (run apply_filtered events (new_filtered t p)).result
        ≈ filter p (sum_all (changes_to t events))
  filtered-run t p events x =
      let z = sum_all (changes_to t events) in
      let zr = plus_all-IsReduced empty (changes_to t events) empty-IsReduced in
      let (r, h) =
        filtered_from events (new_filtered t p) empty empty-IsReduced
          (λ g. total-empty g ∙ sym (total-empty (passed p g))) in
      get-total _ x r
      ∙ h (unit_at x)
      ∙ total-passed p z x
      ∙ ap (λ w. if p x then w else pos 0) (sym (get-total z x zr))
      ∙ sym (get-filter z zr p x)

  projected_from :
      (events : Events T R) (v : ProjectedView T R) (z : ZSet R)
      → IsReduced v.result
      → ((g : R → ℤ) → total g v.result ≡ total (λ x. g (v.projection x)) z)
      → let v' = run apply_projected events v in
        IsReduced v'.result
        × ((g : R → ℤ)
            → total g v'.result
              ≡ total (λ x. g (v.projection x)) (plus_all z (changes_to v.source_table events)))
  unfolding apply_projected
  projected_from [] v z r h = (r, h)
  projected_from ((table, changes) ∷ events) v z r h = elim (Bool-cases (table == v.source_table)) [
    | inl e ↦
        let f = v.projection in
        let s = project_rows f changes (empty, v.result) in
        let next = (project_rows-IsReduced f changes empty v.result empty-IsReduced r).1 in
        rw (run, apply_projected, e)
          (projected_from events
            (record v { delta = s.0; result = s.1; version = (v.version + 1) % 2 ^ 64 })
            (plus z changes) next
            (λ g. omega (
              int_laws,
              h g,
              project_rows-total f g changes empty v.result,
              total-plus (λ x. g (f x)) z changes,
            )))
    | inr e ↦ rw (run, apply_projected, e) (projected_from events v z r h)
  ]

  -- After any changes of tables, ProjectedView holds the projection of the sum of the changes of its
  -- source table.
  pub projected-run :
      (t : T) (f : R → R) (events : Events T R)
      → (run apply_projected events (new_projected t f)).result
        ≈ map f (sum_all (changes_to t events))
  projected-run t f events =
      let z = sum_all (changes_to t events) in
      let (r, h) =
        projected_from events (new_projected t f) empty empty-IsReduced
          (λ g. total-empty g ∙ sym (total-empty (λ x. g (f x)))) in
      same_of_total _ (map f z) r (map-IsReduced f z) (λ g. h g ∙ sym (total-map g f z))

  distinct_view-outputs :
      (events : Events T R) (v : DistinctView T R)
      → (run apply_distinct events v).result
        ≡ plus_all v.result
            (outputs distinct_delta v.distinct_op (changes_to v.source_table events))
  unfolding apply_distinct
  distinct_view-outputs [] v = refl
  distinct_view-outputs ((table, changes) ∷ events) v =
      elim (Bool-cases (table == v.source_table)) [
        | inl e ↦
            let (delta, op) = distinct_delta v.distinct_op changes in
            let v' : DistinctView T R = record v {
              distinct_op = op;
              delta = delta;
              result = insert_delta delta v.result;
              version = (v.version + 1) % 2 ^ 64;
            } in
            rw (run, apply_distinct, e)
              (distinct_view-outputs events v'
                ∙ ap
                    (λ z. plus_all z (outputs distinct_delta op (changes_to v.source_table events)))
                    (insert_delta-plus delta v.result))
        | inr e ↦ rw (run, apply_distinct, e) (distinct_view-outputs events v)
      ]

  -- After any changes of tables, DistinctView holds the distinct rows of the sum of the changes of
  -- its source table.
  pub distinct_view-run :
      (t : T) (events : Events T R)
      → (run apply_distinct events (new_distinct_view t)).result
        ≈ distinct (sum_all (changes_to t events))
  distinct_view-run t events x =
      ap (λ z. get z x) (distinct_view-outputs events (new_distinct_view t))
      ∙ distinct_delta_sum (changes_to t events) x
