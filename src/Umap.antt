-- ===== src/Umap.antt =====
-- std::unordered_map as far as the sources use it: an association list with one entry for a key.
-- The order of iteration is unspecified; here it is the order of insertion.
pub mod Sums
use duck_dbsp.Prelude.{List, [], ◌∷◌, Option, none, some, if◌then◌else◌}
use duck_dbsp.Prelude.Equality.{Eq, ◌==◌}

abbrev pub Umap {ℓ κ} : Type ℓ → Type κ → Type (ℓ ⊔ κ)
Umap K V = List (K × V)

abbrev pub or_default {ℓ} : {V : Type ℓ} → V → Option V → V
or_default d none = d
or_default d (some v) = v

module _ {ℓ κ} {K : Type ℓ} {V : Type κ} ⦃key : Eq K⦄ where
  unfoldable pub find : K → Umap K V → Option V
  find k [] = none
  find k ((j, v) ∷ m) = if j == k then some v else find k m

  -- A write `f` through the reference `m[k]`, which makes the entry with value `d` if there is none.
  unfoldable pub update : V → K → (V → V) → Umap K V → Umap K V
  update d k f [] = (k, f d) ∷ []
  update d k f ((j, v) ∷ m) = if j == k then (j, f v) ∷ m else (j, v) ∷ update d k f m

  unfoldable pub erase : K → Umap K V → Umap K V
  erase k [] = []
  erase k ((j, v) ∷ m) = if j == k then m else (j, v) ∷ erase k m
