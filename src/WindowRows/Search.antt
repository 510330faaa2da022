-- ===== src/WindowRows/Search.antt =====
-- include/dbsp_window_rows.hpp, the comparison of rows by the ORDER BY columns, and the binary
-- searches. `==` and `<` of duckdb::Value are parameters.
use duck_dbsp.Prelude.{
  ℕ, zero, suc, ◌+◌, ◌-◌, ◌/◌, ◌≤◌, ◌<◌, ◌≡◌, Bool, true, false, List, [], ◌∷◌, Option, none, some,
  if◌then◌else◌, not, ltb, leb, get_elem?, arith, inl, inr, Bool-cases,
}
use duck_dbsp.Prelude.Int.{ℤ, pos, negsuc, ltb_ℤ, ◌==ℤ◌}
use duck_dbsp.Packed.{Value, null_value}
use duck_dbsp.WindowRows.{Row}

pub record SortColumn : Type 0 where
  pub column_idx : ℕ
  pub ascending : Bool
  pub nulls_first : Bool

abbrev pub is_null : Value → Bool
is_null (null_value id) = true
is_null _ = false

module _ (value_eq value_lt : Value → Value → Bool) where
  unfoldable pub cmp_values : Value → Value → SortColumn → ℤ
  cmp_values a b sc =
      if is_null a
      then (if is_null b then pos 0 else if sc.nulls_first then negsuc 0 else pos 1)
      else if is_null b
      then (if sc.nulls_first then pos 1 else negsuc 0)
      else if value_eq a b
      then pos 0
      else if sc.ascending
      then (if value_lt a b then negsuc 0 else pos 1)
      else (if value_lt a b then pos 1 else negsuc 0)

  -- A column that either row lacks is passed over.
  unfoldable pub cmp_column : Option Value → Option Value → SortColumn → ℤ
  unfolding cmp_values
  cmp_column (some a) (some b) sc = cmp_values a b sc
  cmp_column none b sc = pos 0
  cmp_column (some a) none sc = pos 0

  unfoldable pub cmp_sort_rows : Row → Row → List SortColumn → ℤ
  unfolding cmp_column
  cmp_sort_rows a b [] = pos 0
  cmp_sort_rows a b (sc ∷ sort_cols) =
      let c = cmp_column (get_elem? a sc.column_idx) (get_elem? b sc.column_idx) sc in
      let rest = cmp_sort_rows a b sort_cols in if c ==ℤ pos 0 then rest else c

-- The loop of `lower_bound` and `upper_bound`: `goes_right` is the test on the row at `mid`. Each round
-- shortens the range, so that its length is fuel enough.
unfoldable pub bound_loop : ℕ → (ℕ → Bool) → ℕ → ℕ → ℕ
bound_loop zero goes_right lo hi = lo
bound_loop (suc fuel) goes_right lo hi =
    let mid = lo + (hi - lo) / 2 in
    let right = bound_loop fuel goes_right (mid + 1) hi in
    let left = bound_loop fuel goes_right lo mid in
    if ltb lo hi then if goes_right mid then right else left else lo

-- First index whose row does not sort before the probe; `cmp` is `cmp_sort` against it.
unfoldable pub lower_bound : (ℕ → ℤ) → ℕ → ℕ
unfolding bound_loop
lower_bound cmp size = bound_loop size (λ i. ltb_ℤ (cmp i) (pos 0)) 0 size

-- First index whose row sorts after the probe.
unfoldable pub upper_bound : (ℕ → ℤ) → ℕ → ℕ
unfolding bound_loop
upper_bound cmp size = bound_loop size (λ i. not (ltb_ℤ (pos 0) (cmp i))) 0 size

-- `r` splits the indexes below `n` into those that go right and those that do not.
pub record Splits (goes_right : ℕ → Bool) (n r : ℕ) : Type 0 where
  pub inside : r ≤ n
  pub before : (i : ℕ) → i < r → goes_right i ≡ true
  pub after : (i : ℕ) → r ≤ i → i < n → goes_right i ≡ false

module _ (goes_right : ℕ → Bool) (n : ℕ)
    (sorted : (i j : ℕ) → i ≤ j → j < n → goes_right j ≡ true → goes_right i ≡ true) where
  not_after : (i j : ℕ) → i ≤ j → j < n → goes_right i ≡ false → goes_right j ≡ false
  not_after i j le lt e = elim (Bool-cases (goes_right j)) [
    | inl r ↦ let h = sorted i j le lt r in cc
    | inr f ↦ f
  ]

  bound_loop-Splits :
      (fuel lo hi : ℕ)
      → lo ≤ hi
      → hi ≤ n
      → hi ≤ lo + fuel
      → ((i : ℕ) → i < lo → goes_right i ≡ true)
      → ((i : ℕ) → hi ≤ i → i < n → goes_right i ≡ false)
      → Splits goes_right n (bound_loop fuel goes_right lo hi)
  unfolding bound_loop
  bound_loop-Splits zero lo hi le top enough before after = record {
    inside = omega arith;
    before = before;
    after = λ i ge lt. after i (omega arith) lt;
  }
  bound_loop-Splits (suc fuel) lo hi le top enough before after =
      let mid = lo + (hi - lo) / 2 in
      elim (Bool-cases (ltb lo hi)) [
        | inr done ↦ rw done record {
          inside = ground arith;
          before = before;
          after = λ i ge lt. after i (ground arith) lt;
        }
        | inl more ↦
            let lower : lo < hi = ground arith in
            elim (Bool-cases (goes_right mid)) [
              | inl e ↦
                  rw (more, e)
                    (bound_loop-Splits fuel (mid + 1) hi (omega arith) top (omega arith)
                      (λ i h. sorted i mid (omega arith) (omega arith) e) after)
              | inr e ↦
                  rw (more, e)
                    (bound_loop-Splits fuel lo mid (omega arith) (omega arith) (omega arith) before
                      (λ i ge lt. not_after mid i ge lt e))
            ]
      ]

  pub bound-Splits : Splits goes_right n (bound_loop n goes_right 0 n)
  bound-Splits =
      bound_loop-Splits n 0 n (omega arith) (omega arith) (omega arith)
        (λ i h. absurd (omega arith)) (λ i ge lt. absurd (omega arith))

-- The rows before `lower` sort before the probe, those from `upper` on after it, and those between
-- compare equal.
pub record EqualRange (cmp : ℕ → ℤ) (n lower upper : ℕ) : Type 0 where
  pub ordered : lower ≤ upper
  pub inside : upper ≤ n
  pub before : (i : ℕ) → i < lower → ltb_ℤ (cmp i) (pos 0) ≡ true
  pub equal : (i : ℕ) → lower ≤ i → i < upper → cmp i ≡ pos 0
  pub after : (i : ℕ) → upper ≤ i → i < n → ltb_ℤ (pos 0) (cmp i) ≡ true

both_signs : (c : ℤ) → ltb_ℤ c (pos 0) ≡ true → not (ltb_ℤ (pos 0) c) ≡ false → zero ≡ suc zero
both_signs c h k = ground arith

ends_ordered :
    (cmp : ℕ → ℤ) (n lower upper : ℕ)
    → Splits (λ i. ltb_ℤ (cmp i) (pos 0)) n lower
    → Splits (λ i. not (ltb_ℤ (pos 0) (cmp i))) n upper
    → lower ≤ upper
ends_ordered cmp n lower upper l u = elim (Bool-cases (leb lower upper)) [
  | inl h ↦ ground arith
  | inr h ↦
      let gap : upper < lower = ground arith in
      absurd (
        omega (
          arith,
          both_signs (cmp upper) (l.before upper gap)
              (u.after upper (omega arith) (omega (arith, l.inside))),
        ))
]

-- On rows in an order that the comparison with the probe follows, the two searches end, at the two
-- ends of the rows that compare equal to the probe.
pub bounds-EqualRange :
    (cmp : ℕ → ℤ) (n : ℕ)
    → ((i j : ℕ) → i ≤ j → j < n → ltb_ℤ (cmp j) (cmp i) ≡ false)
    → EqualRange cmp n (lower_bound cmp n) (upper_bound cmp n)
unfolding lower_bound upper_bound
bounds-EqualRange cmp n sorted =
    let low : ℕ → Bool = λ i. ltb_ℤ (cmp i) (pos 0) in
    let high : ℕ → Bool = λ i. not (ltb_ℤ (pos 0) (cmp i)) in
    let l = bound-Splits low n (λ i j le lt h. ground (arith, sorted i j le lt)) in
    let u = bound-Splits high n (λ i j le lt h. ground (arith, sorted i j le lt)) in
    record {
      ordered = ends_ordered cmp n (lower_bound cmp n) (upper_bound cmp n) l u;
      inside = u.inside;
      before = l.before;
      equal = λ i ge lt. ground (arith, l.after i ge (omega (arith, lt, u.inside)), u.before i lt);
      after = λ i ge lt. ground (arith, u.after i ge lt);
    }
