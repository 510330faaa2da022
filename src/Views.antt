-- ===== src/Views.antt =====
-- include/dbsp_materialized_view.hpp: the row type, and runs of a view over the changes of tables.
pub mod Single
pub mod Linear
pub mod Joined
pub mod JoinForms
pub mod JoinIndexes
pub mod Bilinear
pub mod Grouped
pub mod Groups
pub mod Advance
pub mod Totals
pub mod Aggregated
pub mod Manager
use duck_dbsp.Prelude.{List, [], ◌∷◌, if◌then◌else◌}
use duck_dbsp.Prelude.Equality.{Eq, ◌==◌}
use duck_dbsp.Zset.{ZSet}
use duck_dbsp.Zset.Reduced.{IsReduced}

-- A row is its columns. `C` stands for the variant of the column types.
abbrev pub Row {ℓ} : Type ℓ → Type ℓ
Row C = List C

-- Changes of tables, in the order in which they come.
abbrev pub Events {ℓ κ} : Type ℓ → Type κ → Type (ℓ ⊔ κ)
Events T R = List (T × ZSet R)

module _ {ℓ κ} {T : Type ℓ} {R : Type κ} where
  abbrev pub run {μ} : {V : Type μ} → (T → ZSet R → V → V) → Events T R → V → V
  run apply [] v = v
  run apply ((table, changes) ∷ events) v = run apply events (apply table changes v)

module _ {ℓ κ} {T : Type ℓ} {R : Type κ} ⦃er : Eq R⦄ where
  -- Every change is reduced, as a Z-set that was built by `insert` is.
  abbrev pub AllReduced : Events T R → Type κ
  AllReduced [] = Unit
  AllReduced ((table, changes) ∷ events) = IsReduced changes × AllReduced events

module _ {ℓ κ} {T : Type ℓ} {R : Type κ} ⦃et : Eq T⦄ where
  -- The changes of one table.
  abbrev pub changes_to : T → Events T R → List (ZSet R)
  changes_to t [] = []
  changes_to t ((table, changes) ∷ events) =
      let rest = changes_to t events in if table == t then changes ∷ rest else rest
