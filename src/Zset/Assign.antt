-- ===== src/Zset/Assign.antt =====
-- The loops of ZSet::operator-, distinct and filter: each slot gives at most one slot.
use duck_dbsp.Prelude.{
  ℕ, ◌+◌, ◌≤◌, ◌≡◌, refl, ap, [], ◌∷◌, Option, none, some, false, arith, if◌then◌else◌, inl, inr,
  Bool-cases,
}
use duck_dbsp.Prelude.Int.{ℤ, pos, ◌+ℤ◌, ◌*ℤ◌, int_laws, mul-one, mul-zero}
use duck_dbsp.Prelude.Equality.{Eq, ◌==◌}
use duck_dbsp.Flat.{found, find}
use duck_dbsp.Flat.Measures.{
  tally, census, part, part_ℕ, occurs, zeros, is_at, is_zero, find-eq-none, slot_eq,
}
use duck_dbsp.Zset.{ZSet, empty, get, put_kept, assign_loop}
use duck_dbsp.Zset.Insert.{tally-assign, census-assign}
use duck_dbsp.Zset.Reduced.{IsReduced}
use duck_dbsp.Zset.Total.{total, scaled, part-scaled}

-- The weight that a loop keeps of the slot that `find` gives.
abbrev pub kept : (ℤ → Option ℤ) → Option ℤ → ℤ
kept f none = pos 0
kept f (some w) = found (f w)

module _ {ℓ} {A : Type ℓ} ⦃key : Eq A⦄ where
  -- A sum that only the slot of `x` adds to is that slot's part.
  pub tally-at :
      (h : A × ℤ → ℤ) (x : A) (z : ZSet A)
      → ((e : A × ℤ) → (e.0 == x) ≡ false → h e ≡ pos 0)
      → occurs x z ≤ 1
      → tally h z ≡ part h x (find x z)
  unfolding tally find occurs census
  tally-at h x [] off few = refl
  tally-at h x ((j, w) ∷ z) off few = elim (Bool-cases (j == x)) [
    | inl hit ↦ rw hit (
        omega (
          int_laws,
          slot_eq h j x w hit,
          ap (part h x) (find-eq-none x z (ground arith)),
          tally-at h x z off (ground arith),
        ))
    | inr miss ↦ rw miss (omega (int_laws, off (j, w) miss, tally-at h x z off (ground arith)))
  ]

  -- The form that reads the weight of `x`.
  abbrev pub unit_at : A → A → ℤ
  unit_at x y = if y == x then pos 1 else pos 0

  pub get-total : (z : ZSet A) (x : A) → IsReduced z → get z x ≡ total (unit_at x) z
  unfolding get total
  get-total z x r =
      let g = unit_at x in
      let at = tally-at (scaled g) x z (λ e m. rw m (mul-zero e.1)) (r.distinct x) in
      let unit : found (find x z) *ℤ g x ≡ found (find x z) =
        rw ((key.equal_iff x x).1 refl) (mul-one _) in
      omega (int_laws, at, part-scaled g x (find x z), unit)

  tally-put_kept :
      (h : A × ℤ → ℤ) (x : A) (o : Option ℤ) (result : ZSet A)
      → find x result ≡ none
      → tally h (put_kept x o result) ≡ tally h result +ℤ part h x o
  unfolding put_kept
  tally-put_kept h x none result e = omega int_laws
  tally-put_kept h x (some v) result e =
      omega (int_laws, tally-assign h x v result, ap (part h x) e)

  census-put_kept :
      (h : A × ℤ → ℕ) (x : A) (o : Option ℤ) (result : ZSet A)
      → find x result ≡ none
      → census h (put_kept x o result) ≡ census h result + part_ℕ h x o
  unfolding put_kept
  census-put_kept h x none result e = omega arith
  census-put_kept h x (some v) result e =
      omega (arith, census-assign h x v result, ap (part_ℕ h x) e)

  part_unit : (x : A) (o : Option ℤ) → part (scaled (unit_at x)) x o ≡ found o
  part_unit x none = refl
  part_unit x (some v) = rw ((key.equal_iff x x).1 refl) (mul-one v)

  part_off : (x y : A) (o : Option ℤ) → (y == x) ≡ false → part (scaled (unit_at x)) y o ≡ pos 0
  part_off x y none e = refl
  part_off x y (some v) e = rw e (mul-zero v)

  at_most : (k x : A) (o : Option ℤ) → part_ℕ (is_at k) x o ≤ (if x == k then 1 else 0)
  at_most k x none = omega arith
  at_most k x (some w) = omega arith

  census_mono :
      (h h' : A × ℤ → ℕ) (z : ZSet A) → ((e : A × ℤ) → h e ≤ h' e) → census h z ≤ census h' z
  unfolding census
  census_mono h h' [] le = omega arith
  census_mono h h' (e ∷ z) le = omega (arith, le e, census_mono h h' z le)

  -- No element has a slot both in the result and in what is left of the source.
  abbrev Apart : ZSet A → ZSet A → Type ℓ
  Apart result z = (k : A) → occurs k result + occurs k z ≤ 1

  module _ (keep : A → ℤ → Option ℤ) where
    absent : (x : A) (w : ℤ) (result z : ZSet A) → Apart result ((x, w) ∷ z) → find x result ≡ none
    unfolding occurs census
    absent x w result z apart = find-eq-none x result (ground (arith, apart x, key.equal_iff x x))

    put_kept-Apart :
        (x : A) (w : ℤ) (result z : ZSet A)
        → Apart result ((x, w) ∷ z)
        → Apart (put_kept x (keep x w) result) z
    unfolding occurs census
    put_kept-Apart x w result z apart k =
        ground (
          arith,
          apart k,
          census-put_kept (is_at k) x (keep x w) result (absent x w result z apart),
        )

    tally-assign_loop :
        (h : A × ℤ → ℤ) (result z : ZSet A)
        → Apart result z
        → tally h (assign_loop keep result z)
          ≡ tally h result +ℤ tally (λ e. part h e.0 (keep e.0 e.1)) z
    unfolding assign_loop tally
    tally-assign_loop h result [] apart = omega int_laws
    tally-assign_loop h result ((x, w) ∷ z) apart = omega (
      int_laws,
      tally-assign_loop h (put_kept x (keep x w) result) z (put_kept-Apart x w result z apart),
      tally-put_kept h x (keep x w) result (absent x w result z apart),
    )

    census-assign_loop :
        (h : A × ℤ → ℕ) (result z : ZSet A)
        → Apart result z
        → census h (assign_loop keep result z)
          ≡ census h result + census (λ e. part_ℕ h e.0 (keep e.0 e.1)) z
    unfolding assign_loop census
    census-assign_loop h result [] apart = omega arith
    census-assign_loop h result ((x, w) ∷ z) apart = omega (
      arith,
      census-assign_loop h (put_kept x (keep x w) result) z (put_kept-Apart x w result z apart),
      census-put_kept h x (keep x w) result (absent x w result z apart),
    )

    part_at :
        (x : A) (o : Option ℤ)
        → part (λ e. part (scaled (unit_at x)) e.0 (keep e.0 e.1)) x o ≡ kept (keep x) o
    part_at x none = refl
    part_at x (some w) = part_unit x (keep x w)

    module _ (z : ZSet A) (r : IsReduced z) where
      Apart-empty : Apart empty z
      unfolding occurs census
      Apart-empty k = omega (arith, r.distinct k)

      pub assign_loop-IsReduced :
          ((x : A) (w : ℤ) → part_ℕ is_zero x (keep x w) ≤ is_zero (x, w))
          → IsReduced (assign_loop keep empty z)
      assign_loop-IsReduced small = record {
        distinct = λ k.
            unfold occurs census in
            omega (
              arith,
              r.distinct k,
              census-assign_loop (is_at k) empty z Apart-empty,
              census_mono (λ e. part_ℕ (is_at k) e.0 (keep e.0 e.1)) (is_at k) z
                  (λ e. at_most k e.0 (keep e.0 e.1)),
            );
        nonzero =
            unfold zeros census in
            omega (
              arith,
              r.nonzero,
              census-assign_loop is_zero empty z Apart-empty,
              census_mono (λ e. part_ℕ is_zero e.0 (keep e.0 e.1)) is_zero z (λ e. small e.0 e.1),
            );
      }

      -- The weight of an element in the result comes from its one slot in the source.
      pub get-assign_loop :
          ((x : A) (w : ℤ) → part_ℕ is_zero x (keep x w) ≤ is_zero (x, w))
          → (x : A) → get (assign_loop keep empty z) x ≡ kept (keep x) (find x z)
      unfolding tally total
      get-assign_loop small x =
          let h = scaled (unit_at x) in
          omega (
            int_laws,
            get-total (assign_loop keep empty z) x (assign_loop-IsReduced small),
            tally-assign_loop h empty z Apart-empty,
            tally-at (λ e. part h e.0 (keep e.0 e.1)) x z (λ e m. part_off x e.0 (keep e.0 e.1) m)
                (r.distinct x),
            part_at x (find x z),
          )
