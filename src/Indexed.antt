-- ===== src/Indexed.antt =====
-- include/dbsp_zset.hpp, IndexedZSet and equi_join: Z-sets of values under keys.
pub mod Sums
pub mod Join
use duck_dbsp.Prelude.{ℕ, ◌+◌, Bool, true, false, List, [], ◌∷◌, Option, none, some, if◌then◌else◌}
use duck_dbsp.Prelude.Int.{ℤ, pos, negate, ◌==ℤ◌}
use duck_dbsp.Prelude.Equality.{Eq, ◌==◌, pair_eq}
use duck_dbsp.Umap
use duck_dbsp.Umap.{Umap}
use duck_dbsp.Zset
use duck_dbsp.Zset.{ZSet, empty}

abbrev pub IndexedZSet {ℓ κ} : Type ℓ → Type κ → Type (ℓ ⊔ κ)
IndexedZSet K V = Umap K (ZSet V)

-- `zset.empty()`
abbrev pub is_empty {ℓ} : {A : Type ℓ} → ZSet A → Bool
is_empty [] = true
is_empty (e ∷ z) = false

module _ {ℓ κ} {K : Type ℓ} {V : Type κ} ⦃key : Eq K⦄ where
  -- `operator[]`: the empty Z-set under a key that is not there.
  unfoldable pub at : IndexedZSet K V → K → ZSet V
  at ix k = Umap.or_default empty (Umap.find k ix)

  -- The key goes with its last value.
  unfoldable pub drop_empty : K → IndexedZSet K V → IndexedZSet K V
  unfolding at
  drop_empty k ix = if is_empty (at ix k) then Umap.erase k ix else ix

  unfoldable pub keys : IndexedZSet K V → List K
  keys [] = []
  keys ((k, z) ∷ ix) = k ∷ keys ix

  unfoldable pub support_size : IndexedZSet K V → ℕ
  support_size [] = 0
  support_size ((k, z) ∷ ix) = Zset.support_size z + support_size ix

module _ {ℓ κ} {K : Type ℓ} {V : Type κ} ⦃key : Eq K⦄ ⦃ev : Eq V⦄ where
  unfoldable pub insert : K → V → ℤ → IndexedZSet K V → IndexedZSet K V
  unfolding drop_empty
  insert k v w ix =
      if w ==ℤ pos 0 then ix else drop_empty k (Umap.update empty k (Zset.insert v w) ix)

  -- The inner loop of `operator+`, over the values of one key.
  plus_values : K → ZSet V → IndexedZSet K V → IndexedZSet K V
  plus_values k [] ix = ix
  plus_values k ((v, w) ∷ z) ix = plus_values k z (insert k v w ix)

  unfoldable pub plus : IndexedZSet K V → IndexedZSet K V → IndexedZSet K V
  unfolding plus_values insert
  plus ix [] = ix
  plus ix ((k, z) ∷ other) = plus (plus_values k z ix) other

  minus_values : K → ZSet V → IndexedZSet K V → IndexedZSet K V
  minus_values k [] ix = ix
  minus_values k ((v, w) ∷ z) ix = minus_values k z (insert k v (negate w) ix)

  unfoldable pub minus : IndexedZSet K V → IndexedZSet K V → IndexedZSet K V
  unfolding minus_values insert
  minus ix [] = ix
  minus ix ((k, z) ∷ other) = minus (minus_values k z ix) other

  -- `for (const auto& [v, w] : z) ix.insert(key_fn(v), v, w);`
  unfoldable pub insert_all : (V → K) → ZSet V → IndexedZSet K V → IndexedZSet K V
  unfolding insert
  insert_all key_fn [] ix = ix
  insert_all key_fn ((v, w) ∷ z) ix = insert_all key_fn z (insert (key_fn v) v w ix)

module _ {ℓ κ μ} {A : Type ℓ} {B : Type κ} {K : Type μ} ⦃ea : Eq A⦄ ⦃eb : Eq B⦄ ⦃ek : Eq K⦄ where
  -- Joins each slot with the values that the index has under its key.
  unfoldable pub probe_loop : (A → K) → IndexedZSet K B → ZSet A → ZSet (A × B) → ZSet (A × B)
  unfolding at Zset.insert_scaled
  probe_loop key_fn ix [] result = result
  probe_loop key_fn ix ((a, w) ∷ z) result =
      probe_loop key_fn ix z (Zset.insert_scaled (λ b. (a, b)) w (at ix (key_fn a)) result)

  unfoldable pub equi_join : ZSet A → ZSet B → (A → K) → (B → K) → ZSet (A × B)
  unfolding probe_loop insert_all
  equi_join zs1 zs2 key1 key2 = probe_loop key1 (insert_all key2 zs2 []) zs1 empty
