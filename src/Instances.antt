-- ===== src/Instances.antt =====
-- include/dbsp_instance_registry.hpp, InstanceRegistry: which client contexts are internal, and to which
-- database each belongs. Each method holds the mutex throughout, so calls are one after the other.
pub mod Counts
use duck_dbsp.Prelude.{ℕ, ◌+◌, Bool, true, false, [], ◌∷◌, Option, none, some, if◌then◌else◌}
use duck_dbsp.Prelude.Equality.{Eq, ◌==◌}
use duck_dbsp.Umap
use duck_dbsp.Umap.{Umap}

-- Contexts and databases are pointers.
abbrev pub InstanceRegistry {ℓ κ} : Type ℓ → Type κ → Type (ℓ ⊔ κ)
InstanceRegistry X D = Umap X D

module _ {ℓ κ} {X : Type ℓ} {D : Type κ} ⦃ex : Eq X⦄ where
  unfoldable pub register_internal : X → D → InstanceRegistry X D → InstanceRegistry X D
  register_internal ctx db r = Umap.update db ctx (λ _. db) r

  unfoldable pub unregister_internal : X → InstanceRegistry X D → InstanceRegistry X D
  unregister_internal ctx r = Umap.erase ctx r

  unfoldable pub is_internal : X → InstanceRegistry X D → Bool
  is_internal ctx r = elim (Umap.find ctx r) [ none ↦ false | some db ↦ true ]

module _ {ℓ κ} {X : Type ℓ} {D : Type κ} ⦃ed : Eq D⦄ where
  unfoldable pub internal_count : D → InstanceRegistry X D → ℕ
  internal_count db [] = 0
  internal_count db ((ctx, other) ∷ r) =
      let rest = internal_count db r in if other == db then rest + 1 else rest
