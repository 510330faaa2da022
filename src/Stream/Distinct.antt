-- ===== src/Stream/Distinct.antt =====
-- IncrementalDistinct: the changes that it puts out add up to `distinct` of the sum of its inputs.
use duck_dbsp.Prelude.{
  ◌≡◌, refl, ap, sym, ◌∙◌, List, [], ◌∷◌, true, false, Bool, if◌then◌else◌, arith, not, ◌&&◌, inl,
  inr, Bool-cases,
}
use duck_dbsp.Prelude.Int.{ℤ, pos, negsuc, ◌+ℤ◌, ◌-ℤ◌, int_laws, ltb_ℤ}
use duck_dbsp.Prelude.Equality.{Eq, ◌==◌}
use duck_dbsp.Flat.{find}
use duck_dbsp.Zset.{ZSet, empty, get, insert, plus, distinct}
use duck_dbsp.Zset.Reduced.{IsReduced, insert-IsReduced, plus-IsReduced, empty-IsReduced}
use duck_dbsp.Zset.Same.{◌≈◌}
use duck_dbsp.Zset.Weights.{get-insert, get-plus, get-distinct}
use duck_dbsp.Stream.{
  IncrementalDistinct, distinct_round, distinct_rounds, distinct_delta, new_distinct,
}
use duck_dbsp.Stream.Run.{outputs, plus_all, sum_all, plus_all-IsReduced}

-- 1 for a positive weight, 0 otherwise.
abbrev pub sign_of : ℤ → ℤ
sign_of w = if ltb_ℤ (pos 0) w then pos 1 else pos 0

pub if_zero : (b : Bool) (v : ℤ) → v +ℤ (if b then pos 0 else pos 0) ≡ v
if_zero true v = omega int_laws
if_zero false v = omega int_laws

module _ {ℓ} {A : Type ℓ} ⦃key : Eq A⦄ where
  -- The integrated state takes the delta in, slot by slot, as `+=` does.
  rounds-integrated :
      (delta z result : ZSet A) → (distinct_rounds delta (z, result)).0 ≡ plus z delta
  unfolding distinct_rounds plus
  rounds-integrated [] z result = refl
  rounds-integrated ((x, w) ∷ delta) z result =
      rounds-integrated delta (insert x w z) (distinct_round x w (z, result)).1

  round-IsReduced :
      (x : A) (w : ℤ) (z result : ZSet A)
      → IsReduced result
      → IsReduced (distinct_round x w (z, result)).1
  unfolding distinct_round
  round-IsReduced x w z result r =
      ground (arith, insert-IsReduced x (pos 1) result r, insert-IsReduced x (negsuc 0) result r)

  pub round-insert :
      (was is : Bool) (x : A) (result : ZSet A) (y : A)
      → IsReduced result
      → get
          (if not was && is
            then insert x (pos 1) result
            else if was && not is
            then insert x (negsuc 0) result
            else result)
          y
        ≡ get result y
          +ℤ (if x == y
              then (if is then pos 1 else pos 0) -ℤ (if was then pos 1 else pos 0)
              else pos 0)
  unfolding ◌-ℤ◌
  round-insert true true x result y r = sym (if_zero (x == y) (get result y))
  round-insert true false x result y r = get-insert x (negsuc 0) result y r
  round-insert false true x result y r = get-insert x (pos 1) result y r
  round-insert false false x result y r = sym (if_zero (x == y) (get result y))

  -- The result changes by what the signs of the weights change by.
  round-get :
      (x : A) (w : ℤ) (z result : ZSet A) (y : A)
      → IsReduced z
      → IsReduced result
      → get (distinct_round x w (z, result)).1 y
        ≡ get result y +ℤ (sign_of (get (insert x w z) y) -ℤ sign_of (get z y))
  unfolding distinct_round
  round-get x w z result y rz r =
      let old = get z x in
      round-insert (ltb_ℤ (pos 0) old) (ltb_ℤ (pos 0) (old +ℤ w)) x result y r
      ∙ elim (Bool-cases (x == y)) [
        | inl hit ↦
            let same : get z y ≡ old = ap (get z) (sym ((key.equal_iff x y).0 hit)) in
            let new : get (insert x w z) y ≡ old +ℤ w =
              rw (← same) (rw hit at (get-insert x w z y rz)) in
            rw (hit, new, same)
        | inr miss ↦
            let new : get (insert x w z) y ≡ get z y =
              omega (int_laws, rw miss at (get-insert x w z y rz)) in
            rw (miss, new) (omega int_laws)
      ]

  -- The signs' changes add up over the slots of a delta.
  rounds-get :
      (delta z result : ZSet A) (y : A)
      → IsReduced z
      → IsReduced result
      → IsReduced (distinct_rounds delta (z, result)).1
        × (get (distinct_rounds delta (z, result)).1 y
            ≡ get result y +ℤ (sign_of (get (plus z delta) y) -ℤ sign_of (get z y)))
  unfolding distinct_rounds plus
  rounds-get [] z result y rz r = (r, omega int_laws)
  rounds-get ((x, w) ∷ delta) z result y rz r =
      let next = (distinct_round x w (z, result)).1 in
      let (rest-IsReduced, rest) =
        rounds-get delta (insert x w z) next y (insert-IsReduced x w z rz)
          (round-IsReduced x w z result r) in
      (rest-IsReduced, omega (int_laws, rest, round-get x w z result y rz r))

  delta-get :
      (z delta : ZSet A) (y : A)
      → IsReduced z
      → IsReduced (distinct_rounds delta (z, empty)).1
        × (get (distinct_rounds delta (z, empty)).1 y
            ≡ sign_of (get (plus z delta) y) -ℤ sign_of (get z y))
  unfolding get find
  delta-get z delta y rz =
      let (reduced, e) = rounds-get delta z empty y rz empty-IsReduced in
      (reduced, omega (int_laws, e))

  distinct_from :
      (s : IncrementalDistinct A) (out : ZSet A) (ds : List (ZSet A)) (y : A)
      → get out y ≡ sign_of (get s.integrated y)
      → IsReduced s.integrated
      → IsReduced out
      → get (plus_all out (outputs distinct_delta s ds)) y
        ≡ sign_of (get (plus_all s.integrated ds) y)
  unfolding distinct_delta
  distinct_from s out [] y e rz r = e
  distinct_from s out (d ∷ ds) y e rz r =
      let z = s.integrated in
      let change = (distinct_rounds d (z, empty)).1 in
      let (reduced, changed) = delta-get z d y rz in
      rw (rounds-integrated d z empty) (
        distinct_from (record { integrated = plus z d }) (plus out change) ds y
          (omega (int_laws, (get-plus out change y r reduced).0, changed, e))
          (plus-IsReduced z d rz) (plus-IsReduced out change r))

  -- The changes that IncrementalDistinct puts out over any steps add up to `distinct` of the sum of
  -- its input changes.
  pub distinct_delta_sum :
      (ds : List (ZSet A))
      → sum_all (outputs distinct_delta new_distinct ds) ≈ distinct (sum_all ds)
  unfolding get find
  distinct_delta_sum ds y =
      distinct_from new_distinct empty ds y refl empty-IsReduced empty-IsReduced
      ∙ sym (get-distinct (sum_all ds) (plus_all-IsReduced empty ds empty-IsReduced) y)
