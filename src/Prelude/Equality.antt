-- ===== src/Prelude/Equality.antt =====
-- Equality of elements as the containers see it: the `operator==` of the template parameter.
use duck_dbsp.Prelude.Tests.{◌==◌ as nat_equal, ==_iff}
use duck_dbsp.Prelude.Int.{ℤ, ◌==ℤ◌, ==ℤ_iff}
use Prim.Native.Nat.{ℕ}
use mathlib.Core.Path.{◌≡◌, refl, ap}
use mathlib.Core.List.{List, [], ◌∷◌}
use mathlib.Core.Logic.{◌↔◌}
use mathlib.Core.Bool.{Bool, true, false, ◌&&◌}
use native.Mathlib.Omega.{arith}

pub record Eq {ℓ} (A : Type ℓ) : Type ℓ where
  pub equal : A → A → Bool
  pub equal_iff : (a b : A) → (equal a b ≡ true) ↔ (a ≡ b)

infix 50 ◌==◌
abbrev pub ◌==◌ {ℓ} : {A : Type ℓ} ⦃e : Eq A⦄ → A → A → Bool
◌==◌ ⦃e⦄ = e.equal

instance abbrev pub nat_eq : Eq ℕ
nat_eq = record { equal = nat_equal; equal_iff = ==_iff }

instance abbrev pub int_eq : Eq ℤ
int_eq = record { equal = ◌==ℤ◌; equal_iff = ==ℤ_iff }

module _ {ℓ κ} {A : Type ℓ} {B : Type κ} ⦃ea : Eq A⦄ ⦃eb : Eq B⦄ where
  abbrev pub pair_equal : A × B → A × B → Bool
  pair_equal p q = ea.equal p.0 q.0 && eb.equal p.1 q.1

  pub pair_equal_iff : (p q : A × B) → (pair_equal p q ≡ true) ↔ (p ≡ q)
  pair_equal_iff (a, b) (c, d) = (
    λ h. ground (arith, ea.equal_iff a c, eb.equal_iff b d),
    λ e. ground (
      arith,
      ea.equal_iff a c,
      eb.equal_iff b d,
      ap (λ (p : A × B). p.0) e,
      ap (λ (p : A × B). p.1) e,
    ),
  )

  instance abbrev pub pair_eq : Eq (A × B)
  pair_eq = record { equal = pair_equal; equal_iff = pair_equal_iff }

module _ {ℓ} {A : Type ℓ} ⦃ea : Eq A⦄ where
  abbrev pub list_equal : List A → List A → Bool
  list_equal [] [] = true
  list_equal [] (y ∷ ys) = false
  list_equal (x ∷ xs) [] = false
  list_equal (x ∷ xs) (y ∷ ys) = ea.equal x y && list_equal xs ys

  abbrev head_or : A → List A → A
  head_or d [] = d
  head_or d (x ∷ xs) = x

  abbrev tail : List A → List A
  tail [] = []
  tail (x ∷ xs) = xs

  pub list_equal_iff : (xs ys : List A) → (list_equal xs ys ≡ true) ↔ (xs ≡ ys)
  list_equal_iff [] [] = (λ h. refl, λ e. refl)
  list_equal_iff [] (y ∷ ys) = (λ h. cc, λ e. cc)
  list_equal_iff (x ∷ xs) [] = (λ h. cc, λ e. cc)
  list_equal_iff (x ∷ xs) (y ∷ ys) = (
    λ h. ground (arith, ea.equal_iff x y, list_equal_iff xs ys),
    λ e. ground (arith, ea.equal_iff x y, list_equal_iff xs ys, ap (head_or x) e, ap tail e),
  )

  instance abbrev pub list_eq : Eq (List A)
  list_eq = record { equal = list_equal; equal_iff = list_equal_iff }
