-- ===== src/Zset/Weights.antt =====
-- The weight that each operation of ZSet gives an element, as a function of the weights it is given.
use duck_dbsp.Prelude.{
  ℕ, zero, suc, ◌≤◌, ◌≡◌, refl, [], ◌∷◌, Option, none, some, true, false, Bool, arith,
  if◌then◌else◌, inl, inr, Bool-cases, ap, ◌↔◌, ◌≢◌,
}
use duck_dbsp.Prelude.Int.{ℤ, pos, ◌+ℤ◌, ◌-ℤ◌, ◌*ℤ◌, negate, int_laws, ltb_ℤ, mul-one, mul-zero}
use duck_dbsp.Prelude.Equality.{Eq, ◌==◌, pair_eq}
use duck_dbsp.Flat
use duck_dbsp.Flat.{found, find}
use duck_dbsp.Flat.Measures.{tally, part_ℕ, is_zero}
use duck_dbsp.Zset.{
  ZSet, get, insert, contains, plus, minus, neg, distinct, filter, count, count_loop,
}
use duck_dbsp.Zset.Reduced.{
  IsReduced, found_nonzero, insert-IsReduced, plus-IsReduced, minus-IsReduced,
}
use duck_dbsp.Zset.Total.{total, total-insert, total-plus, total-minus}
use duck_dbsp.Zset.Assign.{get-total, unit_at, get-assign_loop, assign_loop-IsReduced}

contains_found :
    (o : Option ℤ)
    → o ≢ some (pos 0)
    → ((elim (elim o as (λ _. ℕ) [ none ↦ 0 | some w ↦ 1 ]) as (λ _. Bool) [
      | zero ↦ false
      | suc n ↦ true
    ])
        ≡ true)
      ↔ (found o ≢ pos 0)
contains_found none h = (λ e. cc, λ e. absurd (e refl))
contains_found (some w) h = (λ e n. h (ap some n), λ e. refl)

module _ {ℓ} {A : Type ℓ} ⦃key : Eq A⦄ where
  unit_at-mul : (x y : A) (w : ℤ) → w *ℤ unit_at x y ≡ (if y == x then w else pos 0)
  unit_at-mul x y w = elim (Bool-cases (y == x)) [
    | inl e ↦ rw e (mul-one w)
    | inr e ↦ rw e (mul-zero w)
  ]

  -- On a reduced Z-set, `insert` adds the weight at the element and leaves all other weights as they
  -- are.
  pub get-insert :
      (x : A) (w : ℤ) (z : ZSet A) (y : A)
      → IsReduced z
      → get (insert x w z) y ≡ get z y +ℤ (if x == y then w else pos 0)
  get-insert x w z y r = omega (
    int_laws,
    get-total (insert x w z) y (insert-IsReduced x w z r),
    get-total z y r,
    total-insert (unit_at y) x w z,
    unit_at-mul y x w,
  )

  -- On reduced Z-sets, addition and subtraction are pointwise.
  pub get-plus :
      (z other : ZSet A) (x : A)
      → IsReduced z
      → IsReduced other
      → (get (plus z other) x ≡ get z x +ℤ get other x)
        × (get (minus z other) x ≡ get z x -ℤ get other x)
  get-plus z other x r o = (
    omega (
      int_laws,
      get-total (plus z other) x (plus-IsReduced z other r),
      get-total z x r,
      get-total other x o,
      total-plus (unit_at x) z other,
    ),
    omega (
      int_laws,
      get-total (minus z other) x (minus-IsReduced z other r),
      get-total z x r,
      get-total other x o,
      total-minus (unit_at x) z other,
    ),
  )

  module _ (z : ZSet A) (r : IsReduced z) where
    neg_keeps : (x : A) (w : ℤ) → part_ℕ is_zero x (some (negate w)) ≤ is_zero (x, w)
    unfolding negate
    neg_keeps x w = ground arith

    pub neg-IsReduced : IsReduced (neg z)
    unfolding neg
    neg-IsReduced = assign_loop-IsReduced (λ x w. some (negate w)) z r neg_keeps

    -- On a reduced Z-set, negation is pointwise.
    pub get-neg : (x : A) → get (neg z) x ≡ negate (get z x)
    unfolding neg get negate
    get-neg x = ground (arith, get-assign_loop (λ x w. some (negate w)) z r neg_keeps x)

    distinct_keeps :
        (x : A) (w : ℤ)
        → part_ℕ is_zero x (if ltb_ℤ (pos 0) w then some (pos 1) else none) ≤ is_zero (x, w)
    distinct_keeps x w = ground arith

    pub distinct-IsReduced : IsReduced (distinct z)
    unfolding distinct
    distinct-IsReduced =
        assign_loop-IsReduced (λ x w. if ltb_ℤ (pos 0) w then some (pos 1) else none) z r
          distinct_keeps

    -- On a reduced Z-set, `distinct` gives weight 1 to each element of positive weight, and 0 to all
    -- others.
    pub get-distinct :
        (x : A) → get (distinct z) x ≡ (if ltb_ℤ (pos 0) (get z x) then pos 1 else pos 0)
    unfolding distinct get
    get-distinct x = ground (
      arith,
      get-assign_loop (λ x w. if ltb_ℤ (pos 0) w then some (pos 1) else none) z r distinct_keeps x,
    )

    filter_keeps :
        (p : A → Bool) (x : A) (w : ℤ)
        → part_ℕ is_zero x (if p x then some w else none) ≤ is_zero (x, w)
    filter_keeps p x w = ground arith

    pub filter-IsReduced : (p : A → Bool) → IsReduced (filter p z)
    unfolding filter
    filter-IsReduced p =
        assign_loop-IsReduced (λ x w. if p x then some w else none) z r (filter_keeps p)

    -- On a reduced Z-set, `filter` keeps the weight of the elements that satisfy the predicate, and
    -- gives all others weight 0.
    pub get-filter : (p : A → Bool) (x : A) → get (filter p z) x ≡ (if p x then get z x else pos 0)
    unfolding filter get
    get-filter p x =
        ground (arith, get-assign_loop (λ x w. if p x then some w else none) z r (filter_keeps p) x)

    -- On a reduced Z-set, `contains` tells exactly the elements whose weight is not 0.
    pub contains_iff : (x : A) → (contains z x ≡ true) ↔ (get z x ≢ pos 0)
    unfolding contains Flat.count get
    contains_iff x = contains_found (find x z) (found_nonzero z x r)

  -- The sum of the weights is linear.
  count_loop-total : (sum : ℤ) (z : ZSet A) → count_loop sum z ≡ sum +ℤ total (λ _. pos 1) z
  unfolding count_loop total tally
  count_loop-total sum [] = omega int_laws
  count_loop-total sum ((x, w) ∷ z) = omega (int_laws, count_loop-total (sum +ℤ w) z, mul-one w)

  pub count-total : (z : ZSet A) → count z ≡ total (λ _. pos 1) z
  unfolding count
  count-total z = omega (int_laws, count_loop-total (pos 0) z)

  -- The sum of the weights changes by the weight inserted, and is linear in sums of Z-sets.
  pub count-insert : (x : A) (w : ℤ) (z : ZSet A) → count (insert x w z) ≡ count z +ℤ w
  count-insert x w z = omega (
    int_laws,
    count-total (insert x w z),
    count-total z,
    total-insert (λ _. pos 1) x w z,
    mul-one w,
  )
