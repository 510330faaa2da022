-- ===== src/Views/Advance.antt =====
-- include/dbsp_materialized_view.hpp, AggregateView: what a round makes of the state of each group.
use duck_dbsp.Prelude.{
  ◌≡◌, refl, ap, ap₂, sym, ◌∙◌, Bool, true, false, [], ◌∷◌, if◌then◌else◌, inl, inr, ◌⊎◌,
  Bool-cases, Option, none, some, arith, zero, suc,
}
use duck_dbsp.Prelude.Int.{
  ℤ, pos, negsuc, ◌+ℤ◌, ◌*ℤ◌, +ℤ_parts, int_laws, ltb_ℤ, mul-zero, mul-one, zero_mul,
}
use duck_dbsp.Prelude.Equality.{Eq, ◌==◌}
use duck_dbsp.Umap
use duck_dbsp.Umap.{Umap}
use duck_dbsp.Umap.Sums.{
  UniqueKeys, occurs, find-eq-none, find-update, find-erase, update-UniqueKeys,
}
use duck_dbsp.Zset.{ZSet}
use duck_dbsp.Stream.Aggregate.{value_at}
use duck_dbsp.Views.{Row}
use duck_dbsp.Views.Groups.{HasGroups, round-HasGroups}
use duck_dbsp.Views.Grouped.{
  AggType, AggState, new_state, aggregate_round, add_new, aggregate_rounds,
}

-- What a round makes of a group's state.
abbrev pub live_state : AggState → Option AggState
live_state s = if ltb_ℤ (pos 0) s.count then some s else none

abbrev pub advance : Option AggState → ℤ → ℤ → Option AggState
advance o dv dc =
    let s = Umap.or_default new_state o in
    live_state (record s { sum = s.sum +ℤ dv; count = s.count +ℤ dc })

-- The state of a group with this total and this count, and no state for a count of 0 or less.
abbrev pub state_of : ℤ → ℤ → Option AggState
state_of s c = live_state (record new_state { sum = s; count = c })

-- The total is 0 where the count is.
abbrev pub IsSettled : ℤ → ℤ → Type 0
IsSettled s c = (ltb_ℤ (pos 0) c ≡ true) ⊎ ((c ≡ pos 0) × (s ≡ pos 0))

pub advance-state_of :
    (s c dv dc : ℤ) → IsSettled s c → advance (state_of s c) dv dc ≡ state_of (s +ℤ dv) (c +ℤ dc)
advance-state_of s c dv dc (inl more) = rw more refl
advance-state_of s c dv dc (inr (c₀, s₀)) = rw (c₀, s₀) refl

abbrev pub advance_if : Option ℤ → Option AggState → ℤ → Option AggState
advance_if none o dc = o
advance_if (some dv) o dc = advance o dv dc

pub advance_if-advance :
    (m n : Option ℤ) (s c : ℤ)
    → (m ≡ none → n ≡ none)
    → IsSettled s c
    → let dv = Umap.or_default (pos 0) m in
      let dc = Umap.or_default (pos 0) n in
      advance_if m (state_of s c) dc ≡ advance (state_of s c) dv dc
advance_if-advance (some dv) n s c same settled = refl
advance_if-advance none n s c same settled =
    let same_s : s +ℤ pos 0 ≡ s = omega int_laws in
    let same_c : c +ℤ pos 0 ≡ c = omega int_laws in
    rw (same refl) (sym (advance-state_of s c (pos 0) (pos 0) settled ∙ ap₂ state_of same_s same_c))

pub positive_step :
    (b : Bool) (w v c s : ℤ)
    → ltb_ℤ w (pos 0) ≡ false
    → IsSettled s c
    → IsSettled (w *ℤ (if b then v else pos 0) +ℤ s) (w *ℤ (if b then pos 1 else pos 0) +ℤ c)
positive_step false w v c s e before =
    let same_c : pos 0 +ℤ c ≡ c = omega int_laws in
    let same_s : pos 0 +ℤ s ≡ s = omega int_laws in rw (mul-zero w, same_c, same_s) before
positive_step true w v c s e (inl more) =
    inl (rw (mul-one w) (ground (arith, e, more, +ℤ_parts w c)))
positive_step true (pos zero) v c s e (inr (c₀, s₀)) =
    inr (omega (int_laws, mul-one (pos 0), c₀), omega (int_laws, zero_mul v, s₀))
positive_step true (pos (suc n)) v c s e (inr (c₀, s₀)) =
    inl (rw (mul-one (pos (suc n)), c₀) (ground (arith, +ℤ_parts (pos (suc n)) (pos 0))))
positive_step true (negsuc n) v c s e (inr (c₀, s₀)) =
    let clash : true ≡ false = ground (arith, e) in cc

module _ {κ} {C : Type κ} ⦃er : Eq (Row C)⦄ (int_column : ℤ → C) where
  find-aggregate_round :
      (agg : AggType) (k j : Row C) (dv dc : ℤ) (states : Umap (Row C) AggState)
      (out : ZSet (Row C) × ZSet (Row C))
      → UniqueKeys states
      → Umap.find j (aggregate_round int_column agg k dv dc (states, out)).0
        ≡ (if k == j then advance (Umap.find k states) dv dc else Umap.find j states)
  unfolding aggregate_round add_new
  find-aggregate_round agg k j dv dc states out unique =
      let old = Umap.or_default new_state (Umap.find k states) in
      let s : AggState = record old { sum = old.sum +ℤ dv; count = old.count +ℤ dc } in
      let wider = Umap.update new_state k (λ _. s) states in
      let wide = update-UniqueKeys new_state k (λ _. s) states unique in
      elim (Bool-cases (ltb_ℤ (pos 0) s.count)) [
        | inl e ↦ rw (e, find-update) refl
        | inr e ↦
            rw (e, find-erase k j wider wide, find-update)
              (elim (Bool-cases (k == j)) [ inl hit ↦ rw hit refl | inr miss ↦ rw miss refl ])
      ]

  -- Each key of the changes is advanced once, and no other.
  pub find-aggregate_rounds :
      (agg : AggType) (j : Row C) (values counts : Umap (Row C) ℤ)
      (s : Umap (Row C) AggState × (ZSet (Row C) × ZSet (Row C)))
      → UniqueKeys values
      → HasGroups int_column agg s.0 s.1.1
      → Umap.find j (aggregate_rounds int_column agg values counts s).0
        ≡ advance_if (Umap.find j values) (Umap.find j s.0) (value_at counts j)
  unfolding aggregate_rounds Umap.find occurs
  find-aggregate_rounds agg j [] counts s u valid = refl
  find-aggregate_rounds agg j ((k, dv) ∷ values) counts (states, out) u valid =
      let next = aggregate_round int_column agg k dv (value_at counts k) (states, out) in
      let rest =
        find-aggregate_rounds agg j values counts next (λ q. ground (arith, u q))
          (round-HasGroups int_column agg k dv (value_at counts k) states out valid) in
      let here = find-aggregate_round agg k j dv (value_at counts k) states out valid.unique in
      elim (Bool-cases (k == j)) [
        | inl hit ↦
            let gone : Umap.find j values ≡ none =
              find-eq-none j values (ground (arith, u j, hit)) in
            let same : k ≡ j = (er.equal_iff k j).0 hit in
            rw hit (
              rest
              ∙ ap (λ o. advance_if o (Umap.find j next.0) (value_at counts j)) gone
              ∙ (rw hit at here)
              ∙ ap (λ (i : Row C). advance (Umap.find i states) dv (value_at counts i)) same)
        | inr miss ↦ rw miss (
            rest
            ∙ ap (λ o. advance_if (Umap.find j values) o (value_at counts j)) (rw miss at here))
      ]
