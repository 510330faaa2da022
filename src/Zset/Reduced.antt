-- ===== src/Zset/Reduced.antt =====
-- The invariant of a Z-set: each element has at most one slot, and no slot has weight 0.
use duck_dbsp.Prelude.{ℕ, ◌+◌, ◌≤◌, ◌≡◌, refl, ap, ◌≢◌, [], ◌∷◌, some, arith, inl, inr, Bool-cases}
use duck_dbsp.Prelude.Int.{ℤ, pos, ◌+ℤ◌, ◌*ℤ◌, ◌==ℤ◌, negate}
use duck_dbsp.Prelude.Equality.{Eq, ◌==◌, pair_eq}
use duck_dbsp.Flat.{find}
use duck_dbsp.Flat.Measures.{census, occurs, zeros, is_at, is_zero, part_ℕ, occurs-eq-zero, slot_eq}
use duck_dbsp.Zset.{
  ZSet, empty, get, insert, plus, minus, insert_scaled, map_loop, map, flatmap_loop, flatmap,
  product_loop, product,
}
use duck_dbsp.Zset.Insert.{slot_of, census-insert}

module _ {ℓ} {A : Type ℓ} ⦃key : Eq A⦄ where
  pub record IsReduced (z : ZSet A) : Type ℓ where
    pub distinct : (k : A) → occurs k z ≤ 1
    pub nonzero : zeros z ≡ 0

  pub empty-IsReduced : IsReduced empty
  unfolding occurs zeros census
  empty-IsReduced = record { distinct = λ k. omega arith; nonzero = refl }

  found_part : (h : A × ℤ → ℕ) (x : A) (z : ZSet A) → part_ℕ h x (find x z) ≤ census h z
  unfolding census find
  found_part h x [] = omega arith
  found_part h x ((j, w) ∷ z) = elim (Bool-cases (j == x)) [
    | inl hit ↦ rw hit (omega (arith, slot_eq h j x w hit))
    | inr miss ↦ rw miss (omega (arith, found_part h x z))
  ]

  pub found_nonzero : (z : ZSet A) (x : A) → IsReduced z → find x z ≢ some (pos 0)
  unfolding zeros
  found_nonzero z x r e = omega (arith, r.nonzero, found_part is_zero x z, ap (part_ℕ is_zero x) e)

  slot_of-nonzero : (x : A) (n : ℤ) → part_ℕ is_zero x (slot_of n) ≡ 0
  slot_of-nonzero x n = ground arith

  module _ (x : A) (w : ℤ) (z : ZSet A) (r : IsReduced z) where
    occurs_bound :
        (k : A) (n : ℤ)
        → occurs k z + part_ℕ (is_at k) x (slot_of n) ≤ 1 + part_ℕ (is_at k) x (find x z)
    occurs_bound k n = ground (arith, r.distinct k, key.equal_iff x k, occurs-eq-zero x z)

    -- Inserting any weight, 0 included, into a reduced Z-set leaves it reduced: at most one slot for
    -- each element and no slot of weight 0.
    pub insert-IsReduced : IsReduced (insert x w z)
    insert-IsReduced = elim (Bool-cases (w ==ℤ pos 0)) [
      | inl e ↦ unfold insert in rw e r
      | inr e ↦ record {
        distinct = λ k.
            let n = get z x +ℤ w in
            unfold occurs in omega (arith, occurs_bound k n, census-insert (is_at k) x w z e);
        nonzero =
            let n = get z x +ℤ w in
            unfold zeros in
            omega (arith, r.nonzero, slot_of-nonzero x n, census-insert is_zero x w z e);
      }
    ]

  pub plus-IsReduced : (z other : ZSet A) → IsReduced z → IsReduced (plus z other)
  unfolding plus
  plus-IsReduced z [] r = r
  plus-IsReduced z ((x, w) ∷ other) r =
      plus-IsReduced (insert x w z) other (insert-IsReduced x w z r)

  pub minus-IsReduced : (z other : ZSet A) → IsReduced z → IsReduced (minus z other)
  unfolding minus
  minus-IsReduced z [] r = r
  minus-IsReduced z ((x, w) ∷ other) r =
      minus-IsReduced (insert x (negate w) z) other (insert-IsReduced x (negate w) z r)

module _ {κ} {B : Type κ} ⦃eb : Eq B⦄ where
  pub insert_scaled-IsReduced {ℓ} :
      {C : Type ℓ} (f : C → B) (w : ℤ) (ys : ZSet C) (result : ZSet B)
      → IsReduced result
      → IsReduced (insert_scaled f w ys result)
  unfolding insert_scaled
  insert_scaled-IsReduced f w [] result r = r
  insert_scaled-IsReduced f w ((y, v) ∷ ys) result r =
      insert_scaled-IsReduced f w ys (insert (f y) (w *ℤ v) result)
        (insert-IsReduced (f y) (w *ℤ v) result r)

  module _ {ℓ} {A : Type ℓ} where
    map_loop-IsReduced :
        (f : A → B) (result : ZSet B) (z : ZSet A)
        → IsReduced result
        → IsReduced (map_loop f result z)
    unfolding map_loop
    map_loop-IsReduced f result [] r = r
    map_loop-IsReduced f result ((x, w) ∷ z) r =
        map_loop-IsReduced f (insert (f x) w result) z (insert-IsReduced (f x) w result r)

    pub map-IsReduced : (f : A → B) (z : ZSet A) → IsReduced (map f z)
    unfolding map
    map-IsReduced f z = map_loop-IsReduced f empty z empty-IsReduced

    flatmap_loop-IsReduced :
        (f : A → ZSet B) (result : ZSet B) (z : ZSet A)
        → IsReduced result
        → IsReduced (flatmap_loop f result z)
    unfolding flatmap_loop
    flatmap_loop-IsReduced f result [] r = r
    flatmap_loop-IsReduced f result ((x, w) ∷ z) r =
        flatmap_loop-IsReduced f (insert_scaled (λ y. y) w (f x) result) z
          (insert_scaled-IsReduced (λ y. y) w (f x) result r)

    pub flatmap-IsReduced : (f : A → ZSet B) (z : ZSet A) → IsReduced (flatmap f z)
    unfolding flatmap
    flatmap-IsReduced f z = flatmap_loop-IsReduced f empty z empty-IsReduced

module _ {ℓ κ} {A : Type ℓ} {B : Type κ} ⦃ea : Eq A⦄ ⦃eb : Eq B⦄ where
  product_loop-IsReduced :
      (zs : ZSet B) (result : ZSet (A × B)) (z : ZSet A)
      → IsReduced result
      → IsReduced (product_loop zs result z)
  unfolding product_loop
  product_loop-IsReduced zs result [] r = r
  product_loop-IsReduced zs result ((a, w) ∷ z) r =
      product_loop-IsReduced zs (insert_scaled (λ b. (a, b)) w zs result) z
        (insert_scaled-IsReduced (λ b. (a, b)) w zs result r)

  pub product-IsReduced : (z : ZSet A) (zs : ZSet B) → IsReduced (product z zs)
  unfolding product
  product-IsReduced z zs = product_loop-IsReduced zs empty z empty-IsReduced
