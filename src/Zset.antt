-- ===== src/Zset.antt =====
-- include/dbsp_zset.hpp, ZSet and the functions on Z-sets. Weights are integers without bound:
-- overflow of `int64_t` is undefined behaviour, and a run that overflows has no meaning to model.
mod Insert
pub mod Reduced
pub mod Total
pub mod Assign
pub mod Same
pub mod Weights
pub mod Linear
use duck_dbsp.Prelude.{
  ℕ, zero, suc, Bool, true, false, List, [], ◌∷◌, Option, none, some, if◌then◌else◌, length, not,
}
use duck_dbsp.Prelude.Int.{ℤ, pos, negsuc, ◌+ℤ◌, ◌*ℤ◌, negate, ltb_ℤ, ◌==ℤ◌}
use duck_dbsp.Prelude.Equality.{Eq, ◌==◌, pair_eq}
use duck_dbsp.Flat
use duck_dbsp.Flat.{FlatWeightMap}

abbrev pub ZSet {ℓ} : Type ℓ → Type ℓ
ZSet A = FlatWeightMap A

abbrev pub empty {ℓ} : {A : Type ℓ} → ZSet A
empty = []

module _ {ℓ} {A : Type ℓ} ⦃key : Eq A⦄ where
  -- `operator[]` and its alias `get`.
  unfoldable pub get : ZSet A → A → ℤ
  get z x = Flat.found (Flat.find x z)

  -- What is left of `insert` once the weight has been added through the reference.
  unfoldable pub drop_zero : A → ZSet A → ZSet A
  drop_zero x z = if get z x ==ℤ pos 0 then Flat.erase x z else z

  unfoldable pub insert : A → ℤ → ZSet A → ZSet A
  unfolding drop_zero get
  insert x w z =
      if w ==ℤ pos 0 then z else drop_zero x (Flat.write x (λ v. v +ℤ w) (Flat.slot_for x z))

  -- `result.data_[x] = w`
  unfoldable pub assign : A → ℤ → ZSet A → ZSet A
  assign x w z = Flat.write x (λ _. w) (Flat.slot_for x z)

  unfoldable pub contains : ZSet A → A → Bool
  contains z x = elim (Flat.count x z) [ zero ↦ false | suc n ↦ true ]

  -- The body of `operator+` and of `operator+=`.
  unfoldable pub plus : ZSet A → ZSet A → ZSet A
  unfolding insert
  plus z [] = z
  plus z ((x, w) ∷ other) = plus (insert x w z) other

  unfoldable pub minus : ZSet A → ZSet A → ZSet A
  unfolding insert
  minus z [] = z
  minus z ((x, w) ∷ other) = minus (insert x (negate w) z) other

  -- `result.data_[x] = v` for what a loop keeps of a slot.
  unfoldable pub put_kept : A → Option ℤ → ZSet A → ZSet A
  unfolding assign
  put_kept x none result = result
  put_kept x (some v) result = assign x v result

  -- The loop of `operator-`, `distinct` and `filter`.
  unfoldable pub assign_loop : (A → ℤ → Option ℤ) → ZSet A → ZSet A → ZSet A
  unfolding put_kept
  assign_loop keep result [] = result
  assign_loop keep result ((x, w) ∷ z) = assign_loop keep (put_kept x (keep x w) result) z

  -- The unary `operator-`.
  unfoldable pub neg : ZSet A → ZSet A
  unfolding assign_loop
  neg z = assign_loop (λ x w. some (negate w)) empty z

  unfoldable pub distinct : ZSet A → ZSet A
  unfolding assign_loop
  distinct z = assign_loop (λ x w. if ltb_ℤ (pos 0) w then some (pos 1) else none) empty z

  unfoldable pub filter : (A → Bool) → ZSet A → ZSet A
  unfolding assign_loop
  filter p z = assign_loop (λ x w. if p x then some w else none) empty z

module _ {ℓ} {A : Type ℓ} where
  unfoldable pub is_positive : ZSet A → Bool
  is_positive [] = true
  is_positive ((x, w) ∷ z) = if ltb_ℤ w (pos 0) then false else is_positive z

  unfoldable pub is_set : ZSet A → Bool
  is_set [] = true
  is_set ((x, w) ∷ z) = if not (w ==ℤ pos 1) then false else is_set z

  unfoldable pub support_size : ZSet A → ℕ
  support_size z = length z

  count_loop : ℤ → ZSet A → ℤ
  count_loop total [] = total
  count_loop total ((x, w) ∷ z) = count_loop (total +ℤ w) z

  unfoldable pub count : ZSet A → ℤ
  unfolding count_loop
  count z = count_loop (pos 0) z

-- The inner loop of `flatmap`, `product` and the joins: insert `g y` with the product of weights.
unfoldable pub insert_scaled {κ μ} :
    {B : Type κ} {C : Type μ} ⦃eb : Eq B⦄ → (C → B) → ℤ → ZSet C → ZSet B → ZSet B
unfolding insert
insert_scaled g w [] result = result
insert_scaled g w ((y, v) ∷ ys) result = insert_scaled g w ys (insert (g y) (w *ℤ v) result)

module _ {ℓ κ} {A : Type ℓ} {B : Type κ} ⦃eb : Eq B⦄ where
  map_loop : (A → B) → ZSet B → ZSet A → ZSet B
  map_loop f result [] = result
  map_loop f result ((x, w) ∷ z) = map_loop f (insert (f x) w result) z

  unfoldable pub map : (A → B) → ZSet A → ZSet B
  unfolding map_loop insert
  map f z = map_loop f empty z

  flatmap_loop : (A → ZSet B) → ZSet B → ZSet A → ZSet B
  flatmap_loop f result [] = result
  flatmap_loop f result ((x, w) ∷ z) = flatmap_loop f (insert_scaled (λ y. y) w (f x) result) z

  unfoldable pub flatmap : (A → ZSet B) → ZSet A → ZSet B
  unfolding flatmap_loop insert_scaled
  flatmap f z = flatmap_loop f empty z

module _ {ℓ κ} {A : Type ℓ} {B : Type κ} ⦃ea : Eq A⦄ ⦃eb : Eq B⦄ where
  product_loop : ZSet B → ZSet (A × B) → ZSet A → ZSet (A × B)
  product_loop zs result [] = result
  product_loop zs result ((a, w) ∷ z) = product_loop zs (insert_scaled (λ b. (a, b)) w zs result) z

  unfoldable pub product : ZSet A → ZSet B → ZSet (A × B)
  unfolding product_loop insert_scaled
  product z zs = product_loop zs empty z
