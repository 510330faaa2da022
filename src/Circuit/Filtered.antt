-- ===== src/Circuit/Filtered.antt =====
-- The filtered values of many steps, and the filter of their sum.
use duck_dbsp.Prelude.{◌≡◌, Bool, true, false, List, [], ◌∷◌, if◌then◌else◌}
use duck_dbsp.Prelude.Int.{ℤ, pos, ◌+ℤ◌, int_laws}
use duck_dbsp.Prelude.Equality.{Eq}
use duck_dbsp.Zset.{ZSet, empty, get, plus, filter}
use duck_dbsp.Zset.Reduced.{IsReduced, empty-IsReduced, plus-IsReduced}
use duck_dbsp.Stream.Run.{plus_all}
use duck_dbsp.Flat.{find}
use duck_dbsp.Zset.Weights.{get-filter, get-plus, filter-IsReduced}

step_weight :
    (b : Bool) (o z d f o' z' : ℤ)
    → o ≡ (if b then z else pos 0)
    → f ≡ (if b then d else pos 0)
    → o' ≡ o +ℤ f
    → z' ≡ z +ℤ d
    → o' ≡ (if b then z' else pos 0)
step_weight true o z d f o' z' e₁ e₂ e₃ e₄ = omega (int_laws, e₁, e₂, e₃, e₄)
step_weight false o z d f o' z' e₁ e₂ e₃ e₄ = omega (int_laws, e₁, e₂, e₃, e₄)

module _ {ℓ} {A : Type ℓ} ⦃key : Eq A⦄ where
  pub get-plus-empty : (z : ZSet A) (x : A) → IsReduced z → get (plus empty z) x ≡ get z x
  unfolding get find
  get-plus-empty z x r = omega (int_laws, (get-plus empty z x empty-IsReduced r).0)

  abbrev pub EachReduced : List (ZSet A) → Type ℓ
  EachReduced [] = Unit
  EachReduced (z ∷ zs) = IsReduced z × EachReduced zs

  module _ (p : A → Bool) where
    -- What the filter puts out at each step.
    abbrev pub filtered_all : List (ZSet A) → List (ZSet A)
    filtered_all [] = []
    filtered_all (d ∷ ds) = filter p d ∷ filtered_all ds

    pub filtered_all-get :
        (ds : List (ZSet A)) (out z : ZSet A) (x : A)
        → IsReduced out
        → IsReduced z
        → EachReduced ds
        → get out x ≡ (if p x then get z x else pos 0)
        → get (plus_all out (filtered_all ds)) x ≡ (if p x then get (plus_all z ds) x else pos 0)
    filtered_all-get [] out z x ro r rs e = e
    filtered_all-get (d ∷ ds) out z x ro r rs e =
        let f = filter p d in
        filtered_all-get ds (plus out f) (plus z d) x (plus-IsReduced out f ro)
          (plus-IsReduced z d r) rs.1
          (step_weight (p x) (get out x) (get z x) (get d x) (get f x) _ _ e (get-filter d rs.0 p x)
            (get-plus out f x ro (filter-IsReduced d rs.0 p)).0 (get-plus z d x r rs.0).0)
