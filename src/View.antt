-- ===== src/View.antt =====
-- include/dbsp_duckdb_types.hpp, NativeMaterializedView: what a view's clients use. A view takes the
-- changes of a table, and its last delta is what its result has changed by.
pub mod Batch
use duck_dbsp.Prelude.{◌≡◌}
use duck_dbsp.Prelude.Equality.{Eq}
use duck_dbsp.Zset.{ZSet, empty, get, plus}
use duck_dbsp.Zset.Reduced.{IsReduced}
use duck_dbsp.Zset.Same.{◌≈◌}

-- `T` is the type of table names, `R` that of rows.
pub record ViewOps {ℓ κ} (T : Type ℓ) (R : Type κ) ⦃er : Eq R⦄ : Type ((ℓ + 1) ⊔ (κ + 1)) where
  pub View : Type (ℓ ⊔ κ)
  pub apply_changes : T → ZSet R → View → View
  pub get_result : View → ZSet R
  pub get_delta : View → ZSet R
  pub reset : View → View
  pub IsValid : View → Type (ℓ ⊔ κ)
  pub apply_changes-IsValid :
      (t : T) (changes : ZSet R) (v : View)
      → IsReduced changes
      → IsValid v
      → IsValid (apply_changes t changes v)
  pub result-IsReduced : (v : View) → IsValid v → IsReduced (get_result v)
  pub delta-IsReduced : (v : View) → IsValid v → IsReduced (get_delta v)
  pub result-apply_changes :
      (t : T) (changes : ZSet R) (v : View)
      → IsReduced changes
      → IsValid v
      → get_result (apply_changes t changes v)
        ≈ plus (get_result v) (get_delta (apply_changes t changes v))
  pub reset-IsValid : (v : View) → IsValid (reset v)
  pub result-reset : (v : View) (x : R) → get (get_result (reset v)) x ≡ get {A = R} empty x
