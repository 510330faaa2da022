-- ===== src/Zset/Same.antt =====
-- Two reduced Z-sets with the same weights are the same linear form, whatever their slots' order:
-- the operations read a Z-set by its slots, and do not see the order.
use duck_dbsp.Prelude.{◌≡◌, refl, [], ◌∷◌, arith, ap}
use duck_dbsp.Prelude.Int.{ℤ, ◌-ℤ◌, int_laws}
use duck_dbsp.Prelude.Equality.{Eq}
use duck_dbsp.Flat.{find}
use duck_dbsp.Flat.Measures.{census, zeros}
use duck_dbsp.Zset.{ZSet, empty, get, minus}
use duck_dbsp.Zset.Reduced.{IsReduced, minus-IsReduced}
use duck_dbsp.Zset.Total.{total, total-minus, total-empty}
use duck_dbsp.Zset.Assign.{get-total, unit_at}

module _ {ℓ} {A : Type ℓ} ⦃key : Eq A⦄ where
  infix 4 ◌≈◌
  -- The same weight for every element.
  abbrev pub ◌≈◌ : ZSet A → ZSet A → Type ℓ
  z ≈ z' = (x : A) → get z x ≡ get z' x

  -- Without a weight there is no slot.
  eq_empty : (z : ZSet A) → IsReduced z → z ≈ empty → z ≡ empty
  unfolding get find zeros census
  eq_empty [] r h = refl
  eq_empty ((x, w) ∷ z) r h = absurd (ground (arith, h x, key.equal_iff x x, r.nonzero))

  get-minus :
      (z z' : ZSet A) (x : A)
      → IsReduced z
      → IsReduced z'
      → get (minus z z') x ≡ get z x -ℤ get z' x
  get-minus z z' x r r' = omega (
    int_laws,
    get-total (minus z z') x (minus-IsReduced z z' r),
    get-total z x r,
    get-total z' x r',
    total-minus (unit_at x) z z',
  )

  pub total-eq_of_same :
      (g : A → ℤ) (z z' : ZSet A) → IsReduced z → IsReduced z' → z ≈ z' → total g z ≡ total g z'
  unfolding get find
  total-eq_of_same g z z' r r' same =
      let none_left : minus z z' ≡ empty =
        eq_empty (minus z z') (minus-IsReduced z z' r)
          (λ x. omega (int_laws, get-minus z z' x r r', same x)) in
      omega (int_laws, total-minus g z z', ap (total g) none_left, total-empty g)

  pub same_of_total :
      (z z' : ZSet A) → IsReduced z → IsReduced z' → ((g : A → ℤ) → total g z ≡ total g z') → z ≈ z'
  same_of_total z z' r r' e x = omega (int_laws, get-total z x r, get-total z' x r', e (unit_at x))
