-- ===== src/Stream/Run.antt =====
-- An operator fed with the values of many time steps.
use duck_dbsp.Prelude.{List, [], ◌∷◌, ◌≡◌, refl}
use duck_dbsp.Prelude.Int.{ℤ, ◌+ℤ◌, ◌-ℤ◌, int_laws}
use duck_dbsp.Prelude.Equality.{Eq}
use duck_dbsp.Zset.{ZSet, empty, plus, get}
use duck_dbsp.Zset.Reduced.{IsReduced, plus-IsReduced}
use duck_dbsp.Zset.Weights.{get-plus}

module _ {ℓ κ μ} {S : Type ℓ} {X : Type κ} {Y : Type μ} where
  -- The outputs, in order.
  abbrev pub outputs : (S → X → Y × S) → S → List X → List Y
  outputs process s [] = []
  outputs process s (x ∷ xs) = (process s x).0 ∷ outputs process (process s x).1 xs

  abbrev pub final : (S → X → Y × S) → S → List X → S
  final process s [] = s
  final process s (x ∷ xs) = final process (process s x).1 xs

module _ {ℓ} {A : Type ℓ} ⦃key : Eq A⦄ where
  -- The sum of a stream's values on top of `z`.
  abbrev pub plus_all : ZSet A → List (ZSet A) → ZSet A
  plus_all z [] = z
  plus_all z (d ∷ ds) = plus_all (plus z d) ds

  abbrev pub sum_all : List (ZSet A) → ZSet A
  sum_all ds = plus_all empty ds

  pub plus_all-IsReduced :
      (z : ZSet A) (ds : List (ZSet A)) → IsReduced z → IsReduced (plus_all z ds)
  plus_all-IsReduced z [] r = r
  plus_all-IsReduced z (d ∷ ds) r = plus_all-IsReduced (plus z d) ds (plus-IsReduced z d r)

-- A measure of the state that changes by the weights of an element in the outputs: over any steps the
-- weight in the sum of the outputs is what the measure has changed by.
module _ {ℓ κ μ ν} {A : Type ℓ} ⦃key : Eq A⦄ {S : Type κ} {X : Type μ}
    (process : S → X → ZSet A × S) (Good : S → Type ν) (measure : S → ℤ) (row : A)
    (keep : (s : S) (x : X)
      → Good s
      → Good (process s x).1
        × IsReduced (process s x).0
        × (get (process s x).0 row ≡ measure (process s x).1 -ℤ measure s)) where
  pub get-outputs :
      (s : S) (out : ZSet A) (xs : List X)
      → Good s
      → IsReduced out
      → get (plus_all out (outputs process s xs)) row +ℤ measure s
        ≡ get out row +ℤ measure (final process s xs)
  get-outputs s out [] g r = refl
  get-outputs s out (x ∷ xs) g r =
      let (good, reduced, changed) = keep s x g in
      let next = (process s x).0 in
      omega (
        int_laws,
        get-outputs (process s x).1 (plus out next) xs good (plus-IsReduced out next r),
        (get-plus out next row r reduced).0,
        changed,
      )
