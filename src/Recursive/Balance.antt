-- ===== src/Recursive/Balance.antt =====
-- include/dbsp_plan_recursive.hpp, PlanRecursiveNode: every loop adds to the output what it adds to the
-- result.
use duck_dbsp.Prelude.{
  ℕ, zero, suc, ◌≡◌, ap, inl, inr, Bool, true, false, ◌&&◌, List, [], ◌∷◌, if◌then◌else◌,
  Bool-cases, arith,
}
use duck_dbsp.Prelude.Int.{ℤ, pos, negsuc, ◌+ℤ◌, ◌≤ℤ◌, ltb_ℤ, ◌==ℤ◌, ==ℤ_iff, int_laws}
use duck_dbsp.Prelude.Equality.{Eq, ◌==◌}
use duck_dbsp.Zset.{ZSet, empty, get, insert, minus}
use duck_dbsp.Zset.Reduced.{IsReduced, insert-IsReduced}
use duck_dbsp.Zset.Weights.{get-insert}
use duck_dbsp.View.{ViewOps}
use duck_dbsp.Indexed.{is_empty}
use duck_dbsp.Recursive.{
  Progress, enter, admit, admit_loop, retract, classify, iterate, once_less, overdelete, rederive,
  classify_bases, positive, nonzero,
}

-- A weight of a relation.
abbrev pub IsBit : ℤ → Type 0
IsBit w = (pos 0 ≤ℤ w) × (w ≤ℤ pos 1)

less-IsBit : (w : ℤ) → IsBit w → (w ==ℤ pos 0) ≡ false → IsBit (w +ℤ negsuc 0)
unfolding ◌+ℤ◌
less-IsBit (pos n) b e = ground (arith, b, e)
less-IsBit (negsuc n) b e = absurd (omega (arith, b))

module _ {ℓ} {R : Type ℓ} ⦃er : Eq R⦄ where
  -- Every row has weight 0 or 1.
  abbrev pub IsRelation : ZSet R → Type ℓ
  IsRelation z = (row : R) → IsBit (get z row)

  insert-IsRelation :
      (row : R) (w : ℤ) (z : ZSet R)
      → IsReduced z
      → IsBit (get z row +ℤ w)
      → IsRelation z
      → IsRelation (insert row w z)
  insert-IsRelation row w z r bit rel q = elim (Bool-cases (row == q)) [
    | inl hit ↦
        let same = ap (get z) ((er.equal_iff row q).0 hit) in
        omega (int_laws, rw hit at (get-insert row w z q r), same, bit)
    | inr miss ↦ omega (int_laws, rw miss at (get-insert row w z q r), rel q)
  ]

module _ {ℓ} {R : Type ℓ} ⦃er : Eq R⦄ (base : ZSet R) where
  -- The result is `base` with the output added, and for UNION a relation.
  pub record IsBalanced (union_all : Bool) (p : Progress R) : Type ℓ where
    pub accumulated-IsReduced : IsReduced p.accumulated
    pub out-IsReduced : IsReduced p.out
    pub sum : (row : R) → get p.accumulated row ≡ get base row +ℤ get p.out row
    pub relation : union_all ≡ false → IsRelation p.accumulated

  -- A new frontier is no matter.
  pub frontier-IsBalanced :
      (u : Bool) (p : Progress R) (z : ZSet R)
      → IsBalanced u p
      → IsBalanced u (record p { frontier = z })
  frontier-IsBalanced u p z b = record {
    accumulated-IsReduced = b.accumulated-IsReduced;
    out-IsReduced = b.out-IsReduced;
    sum = b.sum;
    relation = b.relation;
  }

  enter-IsBalanced :
      (u : Bool) (row : R) (w in_frontier : ℤ) (p : Progress R)
      → (u ≡ false → IsBit (get p.accumulated row +ℤ w))
      → IsBalanced u p
      → IsBalanced u (enter row w in_frontier p)
  unfolding enter
  enter-IsBalanced u row w in_frontier p bit b = record {
    accumulated-IsReduced = insert-IsReduced row w p.accumulated b.accumulated-IsReduced;
    out-IsReduced = insert-IsReduced row w p.out b.out-IsReduced;
    sum = λ r. omega (
      int_laws,
      get-insert row w p.accumulated r b.accumulated-IsReduced,
      get-insert row w p.out r b.out-IsReduced,
      b.sum r,
    );
    relation =
        λ e. insert-IsRelation row w p.accumulated b.accumulated-IsReduced (bit e) (b.relation e);
  }

  admit-IsBalanced :
      (u : Bool) (row : R) (w : ℤ) (p : Progress R)
      → IsBalanced u p
      → IsBalanced u (admit u row w p)
  unfolding admit
  admit-IsBalanced true row w p b = enter-IsBalanced true row w w p (λ e. cc) b
  admit-IsBalanced false row w p b =
      elim (Bool-cases (positive w && (get p.accumulated row ==ℤ pos 0))) [
        | inl new ↦
            let absent : get p.accumulated row ≡ pos 0 =
              (==ℤ_iff (get p.accumulated row) (pos 0)).0 (ground (arith, new)) in
            rw new (enter-IsBalanced false row (pos 1) (pos 1) p (λ e. omega (int_laws, absent)) b)
        | inr skip ↦ rw skip b
      ]

  pub admit_loop-IsBalanced :
      (u : Bool) (test : ℤ → Bool) (z : ZSet R) (p : Progress R)
      → IsBalanced u p
      → IsBalanced u (admit_loop u test z p)
  unfolding admit_loop
  admit_loop-IsBalanced u test [] p b = b
  admit_loop-IsBalanced u test ((row, w) ∷ z) p b =
      admit_loop-IsBalanced u test z (if test w then admit u row w p else p)
        (elim (Bool-cases (test w)) [
          | inl passes ↦ rw passes (admit-IsBalanced u row w p b)
          | inr fails ↦ rw fails b
        ])

  -- For UNION a row that is retracted was there once.
  retract-IsBalanced :
      (row : R) (p : Progress R) → IsBalanced false p → IsBalanced false (retract row p)
  unfolding retract
  retract-IsBalanced row p b = elim (Bool-cases (get p.accumulated row ==ℤ pos 0)) [
    | inl absent ↦ rw absent b
    | inr there ↦ rw there (
        enter-IsBalanced false row (negsuc 0) (pos 1) p
          (λ e. less-IsBit (get p.accumulated row) (b.relation e row) there) b)
  ]

  pub classify-IsBalanced :
      (z : ZSet R) (p : Progress R) → IsBalanced false p → IsBalanced false (classify z p)
  unfolding classify
  classify-IsBalanced [] p b = b
  classify-IsBalanced ((row, w) ∷ z) p b =
      classify-IsBalanced z (if ltb_ℤ w (pos 0) then retract row p else p)
        (elim (Bool-cases (ltb_ℤ w (pos 0))) [
          | inl lost ↦ rw lost (retract-IsBalanced row p b)
          | inr other ↦ rw other b
        ])

module _ {ℓ κ} {T : Type ℓ} {R : Type κ} ⦃et : Eq T⦄ ⦃er : Eq R⦄ (ops : ViewOps T R)
    (base : ZSet R) where
  open ops use {View, apply_changes, get_delta}

  pub iterate-IsBalanced :
      (rounds : ℕ) (sentinel : T) (u : Bool) (v : View) (p : Progress R)
      → IsBalanced base u p
      → IsBalanced base u (iterate ops rounds sentinel u (v, p)).1
  unfolding iterate
  iterate-IsBalanced zero sentinel u v p b = b
  iterate-IsBalanced (suc rounds) sentinel u v p b =
      let v' = apply_changes sentinel p.frontier v in
      let next =
        admit_loop-IsBalanced base u nonzero (get_delta v') _
          (frontier-IsBalanced base u p empty b) in
      elim (Bool-cases (is_empty p.frontier)) [
        | inl stop ↦ rw stop b
        | inr go ↦ rw go (iterate-IsBalanced rounds sentinel u v' _ next)
      ]

  pub overdelete-IsBalanced :
      (rounds : ℕ) (sentinel : T) (v : View) (p : Progress R)
      → IsBalanced base false p
      → IsBalanced base false (overdelete ops rounds sentinel (v, p)).1
  unfolding overdelete
  overdelete-IsBalanced zero sentinel v p b = b
  overdelete-IsBalanced (suc rounds) sentinel v p b =
      let v' = apply_changes sentinel (minus empty p.frontier) v in
      let next =
        classify-IsBalanced base (get_delta v') _ (frontier-IsBalanced base false p empty b) in
      elim (Bool-cases (is_empty p.frontier)) [
        | inl stop ↦ rw stop b
        | inr go ↦ rw go (overdelete-IsBalanced rounds sentinel v' _ next)
      ]

  pub classify_bases-IsBalanced :
      (deltas : List (T × ZSet R)) (v : View) (p : Progress R)
      → IsBalanced base false p
      → IsBalanced base false (classify_bases ops deltas (v, p)).1
  unfolding classify_bases
  classify_bases-IsBalanced [] v p b = b
  classify_bases-IsBalanced ((table, d) ∷ deltas) v p b =
      let v' = apply_changes table d v in
      classify_bases-IsBalanced deltas v' _ (classify-IsBalanced base (get_delta v') p b)

  pub rederive-IsBalanced :
      (rounds : ℕ) (sentinel : T) (anchor_total : ZSet R) (v : View) (p : Progress R)
      → IsBalanced base false p
      → IsBalanced base false (rederive ops rounds sentinel anchor_total (v, p)).1
  unfolding rederive
  rederive-IsBalanced rounds sentinel anchor_total v p b =
      let cleared = apply_changes sentinel (once_less empty p.accumulated) v in
      let image = get_delta (apply_changes sentinel p.accumulated cleared) in
      iterate-IsBalanced rounds sentinel false _ _ (
        admit_loop-IsBalanced base false positive anchor_total _ (
          admit_loop-IsBalanced base false positive image _
            (frontier-IsBalanced base false p empty b)))
