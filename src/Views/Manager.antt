-- ===== src/Views/Manager.antt =====
-- include/dbsp_materialized_view.hpp, MaterializedViewManager: the views by name. The mutex makes
-- each operation one step.
use duck_dbsp.Prelude.{◌≡◌, Bool, true, false, List, [], ◌∷◌, Option, none, some, if◌then◌else◌}
use duck_dbsp.Prelude.Int.{pos, negsuc}
use duck_dbsp.Prelude.Equality.{Eq, ◌==◌}
use duck_dbsp.Umap
use duck_dbsp.Umap.{Umap}
use duck_dbsp.Umap.Sums.{UniqueKeys, find-erase, find-update}
use duck_dbsp.Zset
use duck_dbsp.Zset.{ZSet, empty, get}

-- What the manager uses of a view: `V` is the type of views, `N` that of names.
pub record ViewClass {ℓ κ μ ν} (N : Type ℓ) (T : Type κ) (R : Type μ) (V : Type ν)
    : Type (ℓ ⊔ κ ⊔ μ ⊔ ν) where
  pub name : V → N
  pub apply_changes : T → ZSet R → V → V
  pub reset : V → V

module _ {ℓ κ μ ν} {N : Type ℓ} {T : Type κ} {R : Type μ} {V : Type ν} ⦃en : Eq N⦄ ⦃er : Eq R⦄
    (class_of : ViewClass N T R V) where
  unfoldable pub register_view : V → Umap N V → Umap N V
  register_view v views = Umap.update v (class_of.name v) (λ _. v) views

  unfoldable pub get_view : N → Umap N V → Option V
  get_view name views = Umap.find name views

  unfoldable pub apply_changes : T → ZSet R → Umap N V → Umap N V
  apply_changes table changes [] = []
  apply_changes table changes ((name, v) ∷ views) =
      (name, class_of.apply_changes table changes v) ∷ apply_changes table changes views

  unfoldable pub insert_row : T → R → Umap N V → Umap N V
  unfolding apply_changes
  insert_row table row views = apply_changes table (Zset.insert row (pos 1) empty) views

  unfoldable pub delete_row : T → R → Umap N V → Umap N V
  unfolding apply_changes
  delete_row table row views = apply_changes table (Zset.insert row (negsuc 0) empty) views

  unfoldable pub update_row : T → R → R → Umap N V → Umap N V
  unfolding apply_changes
  update_row table old_row new_row views =
      apply_changes table (Zset.insert new_row (pos 1) (Zset.insert old_row (negsuc 0) empty)) views

  unfoldable pub list_views : Umap N V → List N
  list_views [] = []
  list_views ((name, v) ∷ views) = name ∷ list_views views

  -- The map without the name, and whether it was there.
  unfoldable pub remove_view : N → Umap N V → Umap N V × Bool
  remove_view name views =
      (Umap.erase name views, elim (Umap.find name views) [ none ↦ false | some v ↦ true ])

  unfoldable pub reset_all : Umap N V → Umap N V
  reset_all [] = []
  reset_all ((name, v) ∷ views) = (name, class_of.reset v) ∷ reset_all views

  -- A registered view is found under its name, and every other name finds what it found before; a
  -- removed name finds nothing, and every other name what it found before.
  pub get_view-registry :
      (v : V) (name other : N) (views : Umap N V)
      → UniqueKeys views
      → (get_view other (register_view v views)
          ≡ (if class_of.name v == other then some v else get_view other views))
        × (get_view other (remove_view name views).0
            ≡ (if name == other then none else get_view other views))
  unfolding get_view register_view remove_view
  get_view-registry v name other views unique =
      (find-update v (class_of.name v) other (λ _. v) views, find-erase name other views unique)
