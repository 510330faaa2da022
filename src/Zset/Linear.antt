-- ===== src/Zset/Linear.antt =====
-- Laws of `total` in the function that is summed.
use duck_dbsp.Prelude.{◌≡◌, refl, sym, [], ◌∷◌, ap, inl, inr, Bool-cases}
use duck_dbsp.Prelude.Int.{
  ℤ, pos, ◌+ℤ◌, ◌*ℤ◌, int_laws, mul_add, add_mul, mul_assoc, mul-zero, zero_mul, mul_comm, mul-one,
}
use duck_dbsp.Prelude.Equality.{Eq, ◌==◌, pair_eq}
use duck_dbsp.Flat.Measures.{tally}
use duck_dbsp.Zset.{ZSet}
use duck_dbsp.Zset.Total.{total}
use duck_dbsp.Zset.Assign.{unit_at}

module _ {ℓ} {A : Type ℓ} where
  pub total_congr : (g g' : A → ℤ) (z : ZSet A) → ((x : A) → g x ≡ g' x) → total g z ≡ total g' z
  unfolding total tally
  total_congr g g' [] e = refl
  total_congr g g' ((x, w) ∷ z) e =
      omega (int_laws, total_congr g g' z e, ap (λ (v : ℤ). w *ℤ v) (e x))

  pub total-zero : (z : ZSet A) → total (λ _. pos 0) z ≡ pos 0
  unfolding total tally
  total-zero [] = refl
  total-zero ((x, w) ∷ z) = omega (int_laws, total-zero z, mul-zero w)

  pub total-add : (g g' : A → ℤ) (z : ZSet A) → total (λ x. g x +ℤ g' x) z ≡ total g z +ℤ total g' z
  unfolding total tally
  total-add g g' [] = omega int_laws
  total-add g g' ((x, w) ∷ z) = omega (int_laws, total-add g g' z, mul_add w (g x) (g' x))

  pub total-scale : (g : A → ℤ) (c : ℤ) (z : ZSet A) → total (λ x. g x *ℤ c) z ≡ total g z *ℤ c
  unfolding total tally
  total-scale g c [] = omega (int_laws, zero_mul c)
  total-scale g c ((x, w) ∷ z) =
      omega (int_laws, total-scale g c z, mul_assoc w (g x) c, add_mul (w *ℤ g x) (total g z) c)

module _ {ℓ κ} {A : Type ℓ} {B : Type κ} where
  -- Sums over two Z-sets may be taken in either order.
  pub total_swap :
      (g : A → B → ℤ) (z : ZSet A) (z' : ZSet B)
      → total (λ a. total (λ b. g a b) z') z ≡ total (λ b. total (λ a. g a b) z) z'
  unfolding total tally
  total_swap g [] z' = omega (int_laws, total-zero z')
  total_swap g ((a, w) ∷ z) z' = omega (
    int_laws,
    total_swap g z z',
    total-add (λ b. w *ℤ g a b) (λ b. total (λ a. g a b) z) z',
    total_congr (λ b. w *ℤ g a b) (λ b. g a b *ℤ w) z' (λ b. mul_comm w (g a b)),
    total-scale (λ b. g a b) w z',
    mul_comm w (total (λ b. g a b) z'),
  )

module _ {ℓ κ} {A : Type ℓ} {B : Type κ} ⦃ea : Eq A⦄ ⦃eb : Eq B⦄ where
  pub unit_at-pair :
      (a a' : A) (b b' : B) → unit_at {A = A × B} (a, b) (a', b') ≡ unit_at b b' *ℤ unit_at a a'
  unit_at-pair a a' b b' = elim (Bool-cases (a' == a)) [
    | inl e ↦ rw e (sym (mul-one (unit_at b b')))
    | inr e ↦ rw e (sym (mul-zero (unit_at b b')))
  ]
