-- ===== src/Zset/Total.antt =====
-- A Z-set as a linear form: `total g z` is the sum of `w * g x` over its slots. Every linear
-- operation on Z-sets acts on these sums, whatever the order of the slots is.
use duck_dbsp.Prelude.{◌≡◌, refl, ◌∙◌, [], ◌∷◌, Option, none, some, inl, inr, Bool-cases}
use duck_dbsp.Prelude.Int.{
  ℤ, pos, negsuc, ◌+ℤ◌, ◌-ℤ◌, ◌*ℤ◌, negate, ◌==ℤ◌, ==ℤ_iff, int_laws, add_mul, mul-zero, zero_mul,
  negate_mul, mul_assoc, mul_add, mul_comm, mul-one,
}
use duck_dbsp.Prelude.Equality.{Eq, pair_eq}
use duck_dbsp.Flat.{found, find}
use duck_dbsp.Flat.Measures.{tally, part}
use duck_dbsp.Zset.{
  ZSet, empty, get, insert, plus, minus, map_loop, map, insert_scaled, flatmap_loop, flatmap,
  product_loop, product,
}
use duck_dbsp.Zset.Insert.{slot_of, tally-insert}

module _ {ℓ} {A : Type ℓ} where
  abbrev pub scaled : (A → ℤ) → A × ℤ → ℤ
  scaled g e = e.1 *ℤ g e.0

  unfoldable pub total : (A → ℤ) → ZSet A → ℤ
  unfolding tally
  total g z = tally (scaled g) z

  pub total-empty : (g : A → ℤ) → total g empty ≡ pos 0
  unfolding total tally
  total-empty g = refl

module _ {ℓ} {A : Type ℓ} ⦃key : Eq A⦄ where
  pub part-scaled : (g : A → ℤ) (x : A) (o : Option ℤ) → part (scaled g) x o ≡ found o *ℤ g x
  part-scaled g x none = omega (int_laws, zero_mul (g x))
  part-scaled g x (some w) = refl

  part-slot_of : (g : A → ℤ) (x : A) (n : ℤ) → part (scaled g) x (slot_of n) ≡ n *ℤ g x
  part-slot_of g x n = elim (Bool-cases (n ==ℤ pos 0)) [
    | inl e ↦ rw (e, (==ℤ_iff n (pos 0)).0 e) (omega (int_laws, zero_mul (g x)))
    | inr e ↦ rw e refl
  ]

  pub total-insert :
      (g : A → ℤ) (x : A) (w : ℤ) (z : ZSet A) → total g (insert x w z) ≡ total g z +ℤ w *ℤ g x
  unfolding total insert get
  total-insert g x w z = elim (Bool-cases (w ==ℤ pos 0)) [
    | inl e ↦ rw (e, (==ℤ_iff w (pos 0)).0 e) (omega (int_laws, zero_mul (g x)))
    | inr e ↦ omega (
      int_laws,
      tally-insert (scaled g) x w z e,
      part-scaled g x (find x z),
      part-slot_of g x (get z x +ℤ w),
      add_mul (get z x) w (g x),
    )
  ]

  pub total-insert-one :
      (g : A → ℤ) (x : A) (z : ZSet A)
      → (total g (insert x (pos 1) z) ≡ total g z +ℤ g x)
        × (total g (insert x (negsuc 0) z) +ℤ g x ≡ total g z)
  unfolding negate
  total-insert-one g x z =
      let one : pos 1 *ℤ g x ≡ g x = mul_comm (pos 1) (g x) ∙ mul-one (g x) in
      let minus_one : negsuc 0 *ℤ g x ≡ negate (pos 1 *ℤ g x) = negate_mul (pos 1) (g x) in
      (
        omega (int_laws, total-insert g x (pos 1) z, one),
        omega (int_laws, total-insert g x (negsuc 0) z, minus_one, one),
      )

  pub total-plus :
      (g : A → ℤ) (z other : ZSet A) → total g (plus z other) ≡ total g z +ℤ total g other
  unfolding total tally plus
  total-plus g z [] = omega int_laws
  total-plus g z ((x, w) ∷ other) =
      omega (int_laws, total-plus g (insert x w z) other, total-insert g x w z)

  pub total-minus :
      (g : A → ℤ) (z other : ZSet A) → total g (minus z other) ≡ total g z -ℤ total g other
  unfolding total tally minus
  total-minus g z [] = omega int_laws
  total-minus g z ((x, w) ∷ other) = omega (
    int_laws,
    total-minus g (insert x (negate w) z) other,
    total-insert g x (negate w) z,
    negate_mul w (g x),
  )

module _ {ℓ κ} {B : Type κ} {C : Type ℓ} ⦃eb : Eq B⦄ where
  pub total-insert_scaled :
      (g : B → ℤ) (f : C → B) (w : ℤ) (ys : ZSet C) (result : ZSet B)
      → total g (insert_scaled f w ys result) ≡ total g result +ℤ w *ℤ total (λ y. g (f y)) ys
  unfolding total tally insert_scaled
  total-insert_scaled g f w [] result = omega (int_laws, mul-zero w)
  total-insert_scaled g f w ((y, v) ∷ ys) result = omega (
    int_laws,
    total-insert_scaled g f w ys (insert (f y) (w *ℤ v) result),
    total-insert g (f y) (w *ℤ v) result,
    mul_assoc w v (g (f y)),
    mul_add w (v *ℤ g (f y)) (total (λ y. g (f y)) ys),
  )

module _ {ℓ κ} {A : Type ℓ} {B : Type κ} ⦃eb : Eq B⦄ where
  total-map_loop :
      (g : B → ℤ) (f : A → B) (result : ZSet B) (z : ZSet A)
      → total g (map_loop f result z) ≡ total g result +ℤ total (λ x. g (f x)) z
  unfolding total tally map_loop
  total-map_loop g f result [] = omega int_laws
  total-map_loop g f result ((x, w) ∷ z) =
      omega (int_laws, total-map_loop g f (insert (f x) w result) z, total-insert g (f x) w result)

  pub total-map : (g : B → ℤ) (f : A → B) (z : ZSet A) → total g (map f z) ≡ total (λ x. g (f x)) z
  unfolding map
  total-map g f z = omega (int_laws, total-map_loop g f empty z, total-empty g)

  total-flatmap_loop :
      (g : B → ℤ) (f : A → ZSet B) (result : ZSet B) (z : ZSet A)
      → total g (flatmap_loop f result z) ≡ total g result +ℤ total (λ x. total g (f x)) z
  unfolding total tally flatmap_loop
  total-flatmap_loop g f result [] = omega int_laws
  total-flatmap_loop g f result ((x, w) ∷ z) = omega (
    int_laws,
    total-flatmap_loop g f (insert_scaled (λ y. y) w (f x) result) z,
    total-insert_scaled g (λ y. y) w (f x) result,
  )

  pub total-flatmap :
      (g : B → ℤ) (f : A → ZSet B) (z : ZSet A)
      → total g (flatmap f z) ≡ total (λ x. total g (f x)) z
  unfolding flatmap
  total-flatmap g f z = omega (int_laws, total-flatmap_loop g f empty z, total-empty g)

module _ {ℓ κ} {A : Type ℓ} {B : Type κ} ⦃ea : Eq A⦄ ⦃eb : Eq B⦄ where
  total-product_loop :
      (g : A × B → ℤ) (zs : ZSet B) (result : ZSet (A × B)) (z : ZSet A)
      → total g (product_loop zs result z)
        ≡ total g result +ℤ total (λ a. total (λ b. g (a, b)) zs) z
  unfolding total tally product_loop
  total-product_loop g zs result [] = omega int_laws
  total-product_loop g zs result ((a, w) ∷ z) = omega (
    int_laws,
    total-product_loop g zs (insert_scaled ⦃eb = pair_eq⦄ (λ b. (a, b)) w zs result) z,
    total-insert_scaled g (λ b. (a, b)) w zs result,
  )

  pub total-product :
      (g : A × B → ℤ) (z : ZSet A) (zs : ZSet B)
      → total g (product z zs) ≡ total (λ a. total (λ b. g (a, b)) zs) z
  unfolding product
  total-product g z zs = omega (int_laws, total-product_loop g zs empty z, total-empty g)
