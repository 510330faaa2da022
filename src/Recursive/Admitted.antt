-- ===== src/Recursive/Admitted.antt =====
-- include/dbsp_plan_recursive.hpp, PlanRecursiveNode::admit: what UNION ALL admits of a Z-set.
use duck_dbsp.Prelude.{
  ◌≡◌, refl, sym, ap, ◌∙◌, inl, inr, Bool, true, false, not, [], ◌∷◌, if◌then◌else◌, All,
  Bool-cases, arith,
}
use duck_dbsp.Prelude.Int.{ℤ, pos, ◌==ℤ◌}
use duck_dbsp.Prelude.Equality.{Eq}
use duck_dbsp.Zset.{ZSet, insert, plus}
use duck_dbsp.Recursive.{Progress, positive, nonzero, enter, admit, admit_loop}

module _ {ℓ} {R : Type ℓ} ⦃er : Eq R⦄ where
  insert-zero : (x : R) (w : ℤ) (z : ZSet R) → (w ==ℤ pos 0) ≡ true → insert x w z ≡ z
  unfolding insert
  insert-zero x w z e = rw e refl

  -- UNION ALL admits every row with its weight.
  pub admit_loop-all :
      (u : Bool) (z : ZSet R) (p : Progress R)
      → u ≡ true
      → ((admit_loop u nonzero z p).accumulated ≡ plus p.accumulated z)
        × ((admit_loop u nonzero z p).frontier ≡ plus p.frontier z)
  unfolding admit_loop plus enter
  admit_loop-all false z p e = cc
  admit_loop-all true [] p e = (refl, refl)
  admit_loop-all true ((x, w) ∷ z) p e =
      let taken = λ (b : Bool). admit_loop true nonzero z (if not b then enter x w w p else p) in
      elim (Bool-cases (w ==ℤ pos 0)) [
        | inl zero_weight ↦
            let (all, queued) = admit_loop-all true z p refl in
            let same = ap taken zero_weight in
            (
              ap (λ (q : Progress R). q.accumulated) same
                  ∙ all
                  ∙ ap (λ (a : ZSet R). plus a z) (sym (insert-zero x w p.accumulated zero_weight)),
              ap (λ (q : Progress R). q.frontier) same
                  ∙ queued
                  ∙ ap (λ (a : ZSet R). plus a z) (sym (insert-zero x w p.frontier zero_weight)),
            )
        | inr other ↦
            let (all, queued) = admit_loop-all true z (enter x w w p) refl in
            let same = ap taken other in
            (
              ap (λ (q : Progress R). q.accumulated) same ∙ all,
              ap (λ (q : Progress R). q.frontier) same ∙ queued,
            )
      ]

  -- Every weight is positive.
  abbrev pub IsPositive : ZSet R → Type 0
  IsPositive z = All (λ (e : R × ℤ). positive e.1 ≡ true) z

  pub admit_loop-positive :
      (u : Bool) (z : ZSet R) (p : Progress R)
      → IsPositive z
      → admit_loop u positive z p ≡ admit_loop u nonzero z p
  unfolding admit_loop
  admit_loop-positive u [] p a = refl
  admit_loop-positive u ((x, w) ∷ z) p a =
      let differs : nonzero w ≡ true = ground (arith, a.0) in
      admit_loop-positive u z (if positive w then admit u x w p else p) a.1
      ∙ ap (λ (b : Bool). admit_loop u nonzero z (if b then admit u x w p else p))
          (a.0 ∙ sym differs)
