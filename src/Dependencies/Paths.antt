-- ===== src/Dependencies/Paths.antt =====
-- include/dbsp_cdc.hpp, DependencyGraph: the paths that the searches follow.
use duck_dbsp.Prelude.{◌≡◌, ◌⊎◌, inl, inr, List}
use duck_dbsp.Prelude.Equality.{Eq}
use duck_dbsp.Umap.{Umap}
use duck_dbsp.Dependencies.{direct}
use duck_dbsp.Dependencies.Sets.{◌∈◌}

-- A path of one edge or more.
pub data Reaches {ℓ} {N : Type ℓ} ⦃en : Eq N⦄ (m : Umap N (List N)) (u : N) : N → Type ℓ where
  edge : {v : N} → v ∈ direct m u → Reaches m u v
  step : {v w : N} → Reaches m u v → w ∈ direct m v → Reaches m u w

module _ {ℓ} {N : Type ℓ} ⦃en : Eq N⦄ where
  -- Every node after one of the set is in the set.
  abbrev pub Closed : Umap N (List N) → List N → Type ℓ
  Closed m xs = (u v : N) → u ∈ xs → v ∈ direct m u → v ∈ xs

  abbrev pub SameOrReaches : Umap N (List N) → N → N → Type ℓ
  SameOrReaches m u v = (u ≡ v) ⊎ Reaches m u v

  pub SameOrReaches-step :
      (m : Umap N (List N)) (u v w : N) → SameOrReaches m u v → w ∈ direct m v → Reaches m u w
  SameOrReaches-step m u v w (inl e) h = edge (rw e h)
  SameOrReaches-step m u v w (inr r) h = step r h

  -- A closed set with a node's edges has all that the node reaches.
  pub Reaches-Closed :
      (m : Umap N (List N)) (xs : List N) (u v : N)
      → Closed m xs
      → ((w : N) → w ∈ direct m u → w ∈ xs)
      → Reaches m u v
      → v ∈ xs
  Reaches-Closed m xs u v c e (edge h) = e v h
  Reaches-Closed m xs u v c e (step {v = w} r h) = c w v (Reaches-Closed m xs u w c e r) h
