-- ===== src/Stream/Aggregate.antt =====
-- include/dbsp_stream.hpp, IncrementalAggregate: SUM and COUNT by key. The value type is taken to be
-- the integers, with `V{}` = 0.
pub mod Groups
pub mod Sums
use duck_dbsp.Prelude.{Bool, true, false, List, [], ◌∷◌, if◌then◌else◌, not}
use duck_dbsp.Prelude.Int.{ℤ, pos, negsuc, ◌+ℤ◌, ◌*ℤ◌, ◌==ℤ◌}
use duck_dbsp.Prelude.Equality.{Eq, ◌==◌, pair_eq, int_eq}
use duck_dbsp.Umap
use duck_dbsp.Umap.{Umap}
use duck_dbsp.Zset
use duck_dbsp.Zset.{ZSet, empty}

pub record IncrementalAggregate {ℓ} (K : Type ℓ) : Type ℓ where
  pub sums : Umap K ℤ
  pub counts : Umap K ℤ

module _ {ℓ} {K : Type ℓ} where
  abbrev pub new_aggregate : IncrementalAggregate K
  new_aggregate = record { sums = []; counts = [] }

module _ {κ} {K : Type κ} ⦃ek : Eq K⦄ where
  -- `m[k]`, read
  unfoldable pub value_at : Umap K ℤ → K → ℤ
  value_at m k = Umap.or_default (pos 0) (Umap.find k m)

  -- `changes[k] += amount(elem, weight)` for each slot of the delta.
  unfoldable pub group_changes {ℓ} :
      {A : Type ℓ} → (A → K) → (A → ℤ → ℤ) → ZSet A → Umap K ℤ → Umap K ℤ
  group_changes key_fn amount [] changes = changes
  group_changes key_fn amount ((x, w) ∷ delta) changes =
      group_changes key_fn amount delta
        (Umap.update (pos 0) (key_fn x) (λ v. v +ℤ amount x w) changes)

  -- One round of the loop that emits the changes of SUM: the sums and the result.
  unfoldable pub sum_round : K → ℤ → Umap K ℤ × ZSet (K × ℤ) → Umap K ℤ × ZSet (K × ℤ)
  unfolding value_at
  sum_round k delta_v (sums, result) =
      let old_sum = value_at sums k in
      let new_sum = old_sum +ℤ delta_v in
      let removed =
        if not (old_sum ==ℤ pos 0) then Zset.insert (k, old_sum) (negsuc 0) result else result in
      if not (delta_v ==ℤ pos 0)
      then (
        Umap.update (pos 0) k (λ _. new_sum) sums,
        (if not (new_sum ==ℤ pos 0) then Zset.insert (k, new_sum) (pos 1) removed else removed),
      )
      else (sums, result)

  unfoldable pub count_round : K → ℤ → Umap K ℤ × ZSet (K × ℤ) → Umap K ℤ × ZSet (K × ℤ)
  unfolding value_at
  count_round k delta_count (counts, result) =
      let old_count = value_at counts k in
      let new_count = old_count +ℤ delta_count in
      if not (delta_count ==ℤ pos 0)
      then (
        Umap.update (pos 0) k (λ _. new_count) counts,
        Zset.insert (k, new_count) (pos 1) (Zset.insert (k, old_count) (negsuc 0) result),
      )
      else (counts, result)

  unfoldable pub emit :
      (K → ℤ → Umap K ℤ × ZSet (K × ℤ) → Umap K ℤ × ZSet (K × ℤ))
      → Umap K ℤ
      → Umap K ℤ × ZSet (K × ℤ)
      → Umap K ℤ × ZSet (K × ℤ)
  emit round [] s = s
  emit round ((k, change) ∷ changes) s = emit round changes (round k change s)

  module _ {ℓ} {A : Type ℓ} (key_fn : A → K) (value_fn : A → ℤ) where
    unfoldable pub process_sum :
        IncrementalAggregate K → ZSet A → ZSet (K × ℤ) × IncrementalAggregate K
    unfolding sum_round emit group_changes
    process_sum s delta =
        let changes = group_changes key_fn (λ x w. value_fn x *ℤ w) delta [] in
        let (sums, result) = emit sum_round changes (s.sums, empty) in
        (result, record s { sums = sums })

    unfoldable pub process_count :
        IncrementalAggregate K → ZSet A → ZSet (K × ℤ) × IncrementalAggregate K
    unfolding count_round emit group_changes
    process_count s delta =
        let changes = group_changes key_fn (λ x w. w) delta [] in
        let (counts, result) = emit count_round changes (s.counts, empty) in
        (result, record s { counts = counts })
