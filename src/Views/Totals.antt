-- ===== src/Views/Totals.antt =====
-- include/dbsp_materialized_view.hpp, AggregateView: the totals of the groups that a change touches.
use duck_dbsp.Prelude.{◌≡◌, refl, ap, true, [], ◌∷◌, inl, inr, Bool-cases, Option, none}
use duck_dbsp.Prelude.Int.{ℤ, pos, ◌+ℤ◌, ◌*ℤ◌, int_laws, ltb_ℤ, mul-zero}
use duck_dbsp.Prelude.Equality.{Eq, ◌==◌}
use duck_dbsp.Umap
use duck_dbsp.Umap.{Umap}
use duck_dbsp.Umap.Sums.{UniqueKeys, find-update, update-UniqueKeys, empty-UniqueKeys}
use duck_dbsp.Flat.Measures.{tally}
use duck_dbsp.Zset.{ZSet, plus, is_positive}
use duck_dbsp.Zset.Total.{total}
use duck_dbsp.Stream.Aggregate.{value_at, group_changes}
use duck_dbsp.Stream.Aggregate.Groups.{group_total, value_at-update}
use duck_dbsp.Views.{Row}
use duck_dbsp.Views.Grouped.{AggState, group_rows}
use duck_dbsp.Views.Advance.{state_of, IsSettled, positive_step}

module _ {κ} {C : Type κ} ⦃er : Eq (Row C)⦄ (key : Row C → Row C) (value : Row C → ℤ) where
  -- The maps that the first loop fills, one at a time.
  pub group_rows-group_changes :
      (z : ZSet (Row C)) (s : Umap (Row C) ℤ × Umap (Row C) ℤ)
      → group_rows key value z s
        ≡ (group_changes key (λ x w. value x *ℤ w) z s.0, group_changes key (λ x w. w) z s.1)
  unfolding group_rows group_changes
  group_rows-group_changes [] s = refl
  group_rows-group_changes ((row, w) ∷ z) (values, counts) = group_rows-group_changes z _

  pub value_at-group_changes :
      (f : Row C → ℤ) (amount : Row C → ℤ → ℤ)
      → ((x : Row C) (w : ℤ) → amount x w ≡ w *ℤ f x)
      → (z : ZSet (Row C)) (changes : Umap (Row C) ℤ) (j : Row C)
      → value_at (group_changes key amount z changes) j
        ≡ value_at changes j +ℤ group_total key f j z
  unfolding group_changes total tally
  value_at-group_changes f amount e [] changes j = omega int_laws
  value_at-group_changes f amount e ((x, w) ∷ z) changes j =
      let k = key x in
      let g : ℤ → ℤ = λ v. v +ℤ amount x w in
      let rest = value_at-group_changes f amount e z (Umap.update (pos 0) k g changes) j in
      let here = value_at-update changes k j g in
      elim (Bool-cases (k == j)) [
        | inl hit ↦
            let same : k ≡ j = (er.equal_iff k j).0 hit in
            rw hit (omega (int_laws, rest, rw hit at here, ap (value_at changes) same, e x w))
        | inr miss ↦ rw miss (omega (int_laws, rest, rw miss at here, mul-zero w))
      ]

  group_changes-UniqueKeys :
      (amount : Row C → ℤ → ℤ) (z : ZSet (Row C)) (changes : Umap (Row C) ℤ)
      → UniqueKeys changes
      → UniqueKeys (group_changes key amount z changes)
  unfolding group_changes
  group_changes-UniqueKeys amount [] changes u = u
  group_changes-UniqueKeys amount ((x, w) ∷ z) changes u =
      group_changes-UniqueKeys amount z _
        (update-UniqueKeys (pos 0) (key x) (λ v. v +ℤ amount x w) changes u)

  pub group_rows-UniqueKeys : (d : ZSet (Row C)) → UniqueKeys (group_rows key value d ([], [])).0
  group_rows-UniqueKeys d =
      rw (group_rows-group_changes d ([], []))
        (group_changes-UniqueKeys _ d [] (empty-UniqueKeys (Row C) ℤ))

  abbrev SameKeys : Umap (Row C) ℤ → Umap (Row C) ℤ → Type κ
  SameKeys values counts = (j : Row C) → Umap.find j values ≡ none → Umap.find j counts ≡ none

  pub group_changes-SameKeys :
      (f g : Row C → ℤ → ℤ) (z : ZSet (Row C)) (values counts : Umap (Row C) ℤ)
      → SameKeys values counts
      → SameKeys (group_changes key f z values) (group_changes key g z counts)
  unfolding group_changes
  group_changes-SameKeys f g [] values counts same = same
  group_changes-SameKeys f g ((x, w) ∷ z) values counts same =
      let k = key x in
      group_changes-SameKeys f g z _ _ (λ j absent. elim (Bool-cases (k == j)) [
        | inl hit ↦ cc (rw (find-update, hit) at absent)
        | inr miss ↦ rw (find-update, miss) (same j (rw (find-update, miss) at absent))
      ])

  -- The state of a group of a table: its total and its count, and the initial minimum and maximum.
  abbrev pub group_state : Row C → ZSet (Row C) → Option AggState
  group_state k z = state_of (group_total key value k z) (group_total key (λ row. pos 1) k z)

  -- Where no row has a negative weight, a group with a count of 0 has a total of 0.
  pub positive_group :
      (k : Row C) (z : ZSet (Row C))
      → is_positive z ≡ true
      → IsSettled (group_total key value k z) (group_total key (λ row. pos 1) k z)
  unfolding is_positive total tally
  positive_group k [] e = inr (refl, refl)
  positive_group k ((row, w) ∷ z) e = elim (Bool-cases (ltb_ℤ w (pos 0))) [
    | inl minus ↦ cc (rw minus at e)
    | inr plus ↦
        positive_step (key row == k) w (value row) _ _ plus (positive_group k z (rw plus at e))
  ]
