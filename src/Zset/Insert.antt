-- ===== src/Zset/Insert.antt =====
-- ZSet::insert and `data_[x] = w` in terms of sums over the slots.
use duck_dbsp.Prelude.{
  ℕ, ◌+◌, ◌≡◌, refl, Option, none, some, false, arith, if◌then◌else◌, inl, inr, Bool-cases,
}
use duck_dbsp.Prelude.Int.{ℤ, pos, ◌+ℤ◌, int_laws, ◌==ℤ◌}
use duck_dbsp.Prelude.Equality.{Eq}
use duck_dbsp.Flat.{found, find, slot_for, write}
use duck_dbsp.Flat.Measures.{
  tally, census, part, part_ℕ, find-slot_for, find-write, tally-slot_for, tally-write, tally-erase,
  census-slot_for, census-write, census-erase,
}
use duck_dbsp.Zset.{ZSet, get, drop_zero, insert, assign}

-- The slot that stands for a weight: none for 0.
abbrev pub slot_of : ℤ → Option ℤ
slot_of n = if n ==ℤ pos 0 then none else some n

module _ {ℓ} {A : Type ℓ} ⦃key : Eq A⦄ where
  pub find-assign : (x : A) (w : ℤ) (z : ZSet A) → find x (assign x w z) ≡ some w
  unfolding assign
  find-assign x w z = find-write x _ _ _ (find-slot_for x z)

  module _ (h : A × ℤ → ℤ) (x : A) where
    pub tally-drop_zero :
        (z : ZSet A) (n : ℤ)
        → find x z ≡ some n
        → tally h (drop_zero x z) +ℤ h (x, n) ≡ tally h z +ℤ part h x (slot_of n)
    unfolding drop_zero get
    tally-drop_zero z n e = rw e (elim (Bool-cases (n ==ℤ pos 0)) [
      | inl done ↦ rw done (omega (int_laws, tally-erase h x z n e))
      | inr more ↦ rw more refl
    ])

    pub tally-insert :
        (w : ℤ) (z : ZSet A)
        → (w ==ℤ pos 0) ≡ false
        → tally h (insert x w z) +ℤ part h x (find x z)
          ≡ tally h z +ℤ part h x (slot_of (get z x +ℤ w))
    unfolding insert get
    tally-insert w z nonzero =
        let s = slot_for x z in
        let v = found (find x z) in
        let at = find-slot_for x z in
        rw nonzero (
          omega (
            int_laws,
            tally-slot_for h x z,
            tally-write h x (λ n. n +ℤ w) s v at,
            tally-drop_zero (write x (λ n. n +ℤ w) s) (v +ℤ w) (find-write x _ s v at),
          ))

    pub tally-assign :
        (w : ℤ) (z : ZSet A) → tally h (assign x w z) +ℤ part h x (find x z) ≡ tally h z +ℤ h (x, w)
    unfolding assign
    tally-assign w z = omega (
      int_laws,
      tally-slot_for h x z,
      tally-write h x (λ _. w) (slot_for x z) (found (find x z)) (find-slot_for x z),
    )

  module _ (h : A × ℤ → ℕ) (x : A) where
    pub census-drop_zero :
        (z : ZSet A) (n : ℤ)
        → find x z ≡ some n
        → census h (drop_zero x z) + h (x, n) ≡ census h z + part_ℕ h x (slot_of n)
    unfolding drop_zero get
    census-drop_zero z n e = rw e (elim (Bool-cases (n ==ℤ pos 0)) [
      | inl done ↦ rw done (omega (arith, census-erase h x z n e))
      | inr more ↦ rw more refl
    ])

    pub census-insert :
        (w : ℤ) (z : ZSet A)
        → (w ==ℤ pos 0) ≡ false
        → census h (insert x w z) + part_ℕ h x (find x z)
          ≡ census h z + part_ℕ h x (slot_of (get z x +ℤ w))
    unfolding insert get
    census-insert w z nonzero =
        let s = slot_for x z in
        let v = found (find x z) in
        let at = find-slot_for x z in
        rw nonzero (
          omega (
            arith,
            census-slot_for h x z,
            census-write h x (λ n. n +ℤ w) s v at,
            census-drop_zero (write x (λ n. n +ℤ w) s) (v +ℤ w) (find-write x _ s v at),
          ))

    pub census-assign :
        (w : ℤ) (z : ZSet A)
        → census h (assign x w z) + part_ℕ h x (find x z) ≡ census h z + h (x, w)
    unfolding assign
    census-assign w z = omega (
      arith,
      census-slot_for h x z,
      census-write h x (λ _. w) (slot_for x z) (found (find x z)) (find-slot_for x z),
    )
