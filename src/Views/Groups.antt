-- ===== src/Views/Groups.antt =====
-- What AggregateView holds: one row for each group that it keeps a state of.
use mathlib.Core.Path.{subst}
use duck_dbsp.Prelude.{
  ◌≡◌, refl, ap, sym, ◌∙◌, true, [], ◌∷◌, if◌then◌else◌, inl, inr, Bool-cases, Option, none, some,
}
use duck_dbsp.Prelude.Int.{ℤ, pos, negsuc, ◌+ℤ◌, int_laws, ltb_ℤ}
use duck_dbsp.Prelude.Equality.{Eq, ◌==◌}
use duck_dbsp.Umap
use duck_dbsp.Umap.{Umap}
use duck_dbsp.Umap.Sums.{
  sum, part, UniqueKeys, sum-update, sum-erase, find-update, find-erase, update-UniqueKeys,
  erase-UniqueKeys,
}
use duck_dbsp.Zset.{ZSet, insert}
use duck_dbsp.Zset.Reduced.{IsReduced, insert-IsReduced}
use duck_dbsp.Zset.Total.{total, total-insert-one}
use duck_dbsp.Stream.Aggregate.{value_at}
use duck_dbsp.Views.{Row}
use duck_dbsp.Views.Grouped.{
  AggType, AggState, new_state, compute_agg, make_result_row, aggregate_round, remove_old, add_new,
  aggregate_rounds,
}

module _ {κ} {C : Type κ} ⦃er : Eq (Row C)⦄ (int_column : ℤ → C) where
  -- The row that stands for a group.
  abbrev pub group_row : AggType → Row C → AggState → Row C
  group_row agg key state = make_result_row int_column key (compute_agg agg state)

  -- The groups have one state each, with a positive count, and the result has the row of each group
  -- with weight 1 and no other row.
  pub record HasGroups (agg : AggType) (states : Umap (Row C) AggState) (result : ZSet (Row C))
      : Type κ where
    pub unique : UniqueKeys states
    pub positive :
        (k : Row C) (s : AggState) → Umap.find k states ≡ some s → ltb_ℤ (pos 0) s.count ≡ true
    pub reduced : IsReduced result
    pub rows : (g : Row C → ℤ) → total g result ≡ sum (λ k s. g (group_row agg k s)) states

  -- What a group's state stands for under a linear form.
  abbrev row_value : AggType → (Row C → ℤ) → Row C → AggState → ℤ
  row_value agg g k s = g (group_row agg k s)

  remove_old-total :
      (agg : AggType) (k : Row C) (o : Option AggState) (out : ZSet (Row C) × ZSet (Row C))
      (g : Row C → ℤ)
      → ((s : AggState) → o ≡ some s → ltb_ℤ (pos 0) s.count ≡ true)
      → total g (remove_old int_column agg k (Umap.or_default new_state o) out).1
          +ℤ part (row_value agg g) k o
        ≡ total g out.1
  unfolding remove_old
  remove_old-total agg k none out g live = omega int_laws
  remove_old-total agg k (some s) out g live =
      rw (live s refl) (omega (int_laws, total-insert-one g (group_row agg k s) out.1))

  remove_old-IsReduced :
      (agg : AggType) (k : Row C) (s : AggState) (out : ZSet (Row C) × ZSet (Row C))
      → IsReduced out.1
      → IsReduced (remove_old int_column agg k s out).1
  unfolding remove_old
  remove_old-IsReduced agg k s out r = elim (Bool-cases (ltb_ℤ (pos 0) s.count)) [
    | inl e ↦ rw e (insert-IsReduced (group_row agg k s) (negsuc 0) out.1 r)
    | inr e ↦ rw e r
  ]

  module _ (agg : AggType) (k : Row C) (s : AggState) (states : Umap (Row C) AggState)
      (out : ZSet (Row C) × ZSet (Row C)) (unique : UniqueKeys states)
      (positive : (j : Row C) (q : AggState)
        → Umap.find j states ≡ some q
        → ltb_ℤ (pos 0) q.count ≡ true)
      (reduced : IsReduced out.1)
      (rows : (g : Row C → ℤ)
        → total g out.1 +ℤ part (row_value agg g) k (Umap.find k states)
          ≡ sum (row_value agg g) states) where
    abbrev wider : Umap (Row C) AggState
    wider = Umap.update new_state k (λ _. s) states

    wider-UniqueKeys : UniqueKeys wider
    wider-UniqueKeys = update-UniqueKeys new_state k (λ _. s) states unique

    find-wider : (j : Row C) → Umap.find j wider ≡ (if k == j then some s else Umap.find j states)
    find-wider j = find-update new_state k j (λ _. s) states

    kept-HasGroups :
        ltb_ℤ (pos 0) s.count ≡ true
        → HasGroups agg wider (insert (group_row agg k s) (pos 1) out.1)
    kept-HasGroups live = record {
      unique = wider-UniqueKeys;
      positive = λ j q e. elim (Bool-cases (k == j)) [
        | inl hit ↦
            let new : Umap.find j wider ≡ some s = rw hit at (find-wider j) in
            subst (λ (p : AggState). ltb_ℤ (pos 0) p.count ≡ true)
              (ap (Umap.or_default s) (sym new ∙ e)) live
        | inr miss ↦
            let old : Umap.find j wider ≡ Umap.find j states = rw miss at (find-wider j) in
            positive j q (sym old ∙ e)
      ];
      reduced = insert-IsReduced (group_row agg k s) (pos 1) out.1 reduced;
      rows = λ g. omega (
        int_laws,
        rows g,
        sum-update (row_value agg g) new_state k (λ _. s) states,
        total-insert-one g (group_row agg k s) out.1,
      );
    }

    erased-HasGroups : HasGroups agg (Umap.erase k wider) out.1
    erased-HasGroups = record {
      unique = erase-UniqueKeys k wider wider-UniqueKeys;
      positive = λ j q e.
          let gone = find-erase k j wider wider-UniqueKeys in
          elim (Bool-cases (k == j)) [
            | inl hit ↦
                let none_left : Umap.find j (Umap.erase k wider) ≡ none = rw hit at gone in
                let clash : none ≡ some q = sym none_left ∙ e in cc
            | inr miss ↦
                let old : Umap.find j (Umap.erase k wider) ≡ Umap.find j states =
                  (rw miss at gone) ∙ (rw miss at (find-wider j)) in
                positive j q (sym old ∙ e)
          ];
      reduced = reduced;
      rows = λ g.
          let here : Umap.find k wider ≡ some s =
            rw ((er.equal_iff k k).1 refl) at (find-wider k) in
          omega (
            int_laws,
            rows g,
            sum-update (row_value agg g) new_state k (λ _. s) states,
            sum-erase (row_value agg g) k wider,
            ap (part (row_value agg g) k) here,
          );
    }

    add_new-HasGroups : let s' = add_new int_column agg k s wider out in HasGroups agg s'.0 s'.1.1
    unfolding add_new
    add_new-HasGroups = elim (Bool-cases (ltb_ℤ (pos 0) s.count)) [
      | inl e ↦ rw e (kept-HasGroups e)
      | inr e ↦ rw e erased-HasGroups
    ]

  pub round-HasGroups :
      (agg : AggType) (k : Row C) (dv dc : ℤ) (states : Umap (Row C) AggState)
      (out : ZSet (Row C) × ZSet (Row C))
      → HasGroups agg states out.1
      → let s' = aggregate_round int_column agg k dv dc (states, out) in HasGroups agg s'.0 s'.1.1
  unfolding aggregate_round
  round-HasGroups agg k dv dc states out valid =
      let old = Umap.or_default new_state (Umap.find k states) in
      add_new-HasGroups agg k (record old { sum = old.sum +ℤ dv; count = old.count +ℤ dc }) states
        (remove_old int_column agg k old out) valid.unique valid.positive
        (remove_old-IsReduced agg k old out valid.reduced)
        (λ g. remove_old-total agg k (Umap.find k states) out g (valid.positive k) ∙ valid.rows g)

  pub rounds-HasGroups :
      (agg : AggType) (values counts : Umap (Row C) ℤ)
      (s : Umap (Row C) AggState × (ZSet (Row C) × ZSet (Row C)))
      → HasGroups agg s.0 s.1.1
      → let s' = aggregate_rounds int_column agg values counts s in HasGroups agg s'.0 s'.1.1
  unfolding aggregate_rounds
  rounds-HasGroups agg [] counts s valid = valid
  rounds-HasGroups agg ((k, dv) ∷ values) counts (states, out) valid =
      rounds-HasGroups agg values counts
        (aggregate_round int_column agg k dv (value_at counts k) (states, out))
        (round-HasGroups agg k dv (value_at counts k) states out valid)
