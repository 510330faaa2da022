-- ===== src/Recursive/Fixpoint.antt =====
-- include/dbsp_plan_recursive.hpp, PlanRecursiveNode: UNION ALL over a linear step keeps a fixed point.
use mathlib.Core.Path.{subst}
use duck_dbsp.Prelude.{
  ◌≡◌, refl, sym, ap, ◌∙◌, ◌⊎◌, inl, inr, Bool, true, false, ◌&&◌, not, List, [], ◌∷◌,
  if◌then◌else◌, All, Bool-cases, arith,
}
use duck_dbsp.Prelude.Int.{ℤ, ◌+ℤ◌, int_laws}
use duck_dbsp.Prelude.Equality.{Eq, ◌==◌}
use duck_dbsp.Flat.{find}
use duck_dbsp.Zset.{ZSet, empty, get, insert, plus}
use duck_dbsp.Zset.Reduced.{IsReduced, empty-IsReduced, plus-IsReduced}
use duck_dbsp.Zset.Weights.{get-plus}
use duck_dbsp.Indexed.{is_empty}
use duck_dbsp.View.{ViewOps}
use duck_dbsp.Recursive.{
  Progress, PlanRecursiveNode, nonzero, admit_loop, iterate, base_deltas, seed_loop, store,
  step_path, step, take_in, take_bases,
}
use duck_dbsp.Recursive.Admitted.{IsPositive, admit_loop-positive}
use duck_dbsp.Recursive.Derived.{IsDerived, IsBaseChange, iterate-IsDerived, seeded-IsDerived}

-- What a view has been fed at the sentinel: a weight for each row.
module _ {ℓ κ} {T : Type ℓ} {R : Type κ} ⦃et : Eq T⦄ ⦃er : Eq R⦄ (ops : ViewOps T R) (sentinel : T)
    (fed : ops.View → R → ℤ)
    (fed-apply_changes : (t : T) (z : ZSet R) (v : ops.View) (row : R)
      → fed (ops.apply_changes t z v) row
        ≡ (if t == sentinel then fed v row +ℤ get z row else fed v row)) where
  open ops use {View, apply_changes, get_delta, get_result}

  -- The result is what the anchor and the step view give, and is what the step view has been fed: a
  -- solution of the recursive equation.
  pub record IsFixpoint (n : PlanRecursiveNode ops) : Type (ℓ ⊔ κ) where
    pub valid : ops.IsValid n.step_view
    pub accumulated-IsReduced : IsReduced n.accumulated
    pub anchor-IsReduced : IsReduced n.anchor_total
    pub solved :
        (row : R)
        → get n.accumulated row ≡ get n.anchor_total row +ℤ get (get_result n.step_view) row
    pub fed_all : (row : R) → get n.accumulated row ≡ fed n.step_view row

  take_in-plus : (z total : ZSet R) (b : Bool) → (take_in z (total, b)).0 ≡ plus total z
  unfolding take_in plus
  take_in-plus [] total b = refl
  take_in-plus ((x, w) ∷ z) total b = take_in-plus z (insert x w total) _

  base_deltas-All :
      (inputs : List (T × ZSet R))
      → All (IsBaseChange ops sentinel fed fed-apply_changes) inputs
      → All (IsBaseChange ops sentinel fed fed-apply_changes) (base_deltas inputs)
  unfolding base_deltas
  base_deltas-All [] a = tt
  base_deltas-All ((t, d) ∷ inputs) a = elim (Bool-cases (is_empty d)) [
    | inl skip ↦ rw skip (base_deltas-All inputs a.1)
    | inr keep ↦ rw keep (a.0, base_deltas-All inputs a.1)
  ]

  pick_else :
      (P : PlanRecursiveNode ops → Type (ℓ ⊔ κ)) (b : Bool) (x y : PlanRecursiveNode ops)
      → b ≡ false
      → P y
      → P (if b then x else y)
  pick_else P true x y e h = cc
  pick_else P false x y e h = h

  pick_then :
      (P : PlanRecursiveNode ops → Type (ℓ ⊔ κ)) (b : Bool) (x y : PlanRecursiveNode ops)
      → b ≡ true
      → P x
      → P (if b then x else y)
  pick_then P true x y e h = h
  pick_then P false x y e h = cc

  -- The seed of a step, and the loop that it starts.
  abbrev pub seed : ZSet R → List (T × ZSet R) → PlanRecursiveNode ops → View × ZSet R
  seed anchor_delta inputs n = seed_loop ops (base_deltas inputs) (n.step_view, anchor_delta)

  abbrev pub attempt : ZSet R → List (T × ZSet R) → PlanRecursiveNode ops → View × Progress R
  attempt anchor_delta inputs n =
      let s = seed anchor_delta inputs n in
      iterate ops n.max_iterations n.sentinel n.union_all (
        s.0,
        admit_loop n.union_all nonzero s.1
            (record { accumulated = n.accumulated; frontier = empty; out = empty }),
      )

  empty_frontier : (z : ZSet R) → is_empty z ≡ true → z ≡ empty
  empty_frontier [] e = refl
  empty_frontier (x ∷ z) e = cc

  store-IsFixpoint :
      (n : PlanRecursiveNode ops) (anchor : R → ℤ) (s : View × Progress R)
      → is_empty s.1.frontier ≡ true
      → ((row : R) → anchor row ≡ get n.anchor_total row)
      → IsReduced n.anchor_total
      → IsDerived ops sentinel fed fed-apply_changes anchor s.0 s.1.accumulated s.1.frontier
      → IsFixpoint (store ops s n)
  unfolding store get find
  store-IsFixpoint n anchor (v, p) stopped same r d = record {
    valid = d.valid;
    accumulated-IsReduced = d.accumulated-IsReduced;
    anchor-IsReduced = r;
    solved = λ row. omega (int_laws, d.derived row, same row);
    fed_all = λ row. omega (
      int_laws,
      d.fed_all row,
      ap (λ (z : ZSet R). get z row) (empty_frontier p.frontier stopped),
    );
  }

  attempt-IsDerived :
      (anchor_delta : ZSet R) (inputs : List (T × ZSet R)) (n : PlanRecursiveNode ops)
      → n.sentinel ≡ sentinel
      → n.union_all ≡ true
      → IsReduced anchor_delta
      → All (IsBaseChange ops sentinel fed fed-apply_changes) inputs
      → IsFixpoint n
      → let s = attempt anchor_delta inputs n in
        IsDerived ops sentinel fed fed-apply_changes
          (λ row. get n.anchor_total row +ℤ get anchor_delta row)
          s.0
          s.1.accumulated
          s.1.frontier
  unfolding get find
  attempt-IsDerived anchor_delta inputs n at_sentinel eu r a f =
      let s = seed anchor_delta inputs n in
      let p =
        admit_loop n.union_all nonzero s.1
          (record { accumulated = n.accumulated; frontier = empty; out = empty }) in
      let start : IsDerived ops sentinel fed fed-apply_changes (λ row. get n.anchor_total row)
          n.step_view n.accumulated empty =
        record {
          valid = f.valid;
          accumulated-IsReduced = f.accumulated-IsReduced;
          frontier-IsReduced = empty-IsReduced;
          derived = f.solved;
          fed_all = λ row. omega (int_laws, f.fed_all row);
        } in
      let seeded =
        seeded-IsDerived ops sentinel fed fed-apply_changes n.union_all
          (λ row. get n.anchor_total row) anchor_delta (base_deltas inputs) n.step_view
          n.accumulated empty eu start (base_deltas-All inputs a) r in
      let anchor = λ (row : R). get n.anchor_total row +ℤ get anchor_delta row in
      let after = λ (t : T). iterate ops n.max_iterations t n.union_all (s.0, p) in
      subst
        (λ (t : T).
          IsDerived ops sentinel fed fed-apply_changes anchor (after t).0 (after t).1.accumulated
            (after t).1.frontier)
        (sym at_sentinel)
        (iterate-IsDerived ops sentinel fed fed-apply_changes n.union_all anchor n.max_iterations
          s.0 p eu seeded)

  -- Whether the changes take anything back.
  abbrev pub deletes : ZSet R → List (T × ZSet R) → PlanRecursiveNode ops → Bool
  deletes anchor_delta inputs n =
      (take_bases (base_deltas inputs)
        (n.base_totals, (take_in anchor_delta (n.anchor_total, false)).1)).1

  step_path-IsFixpoint :
      (has_deletion : Bool) (anchor_delta : ZSet R) (deltas : List (T × ZSet R))
      (n : PlanRecursiveNode ops)
      → n.union_all ≡ true
      → n.linear_step ≡ true
      → let s = seed_loop ops deltas (n.step_view, anchor_delta) in
        let start : Progress R = record {
          accumulated = n.accumulated;
          frontier = empty;
          out = n.output;
        } in
        let signed =
          iterate ops n.max_iterations n.sentinel n.union_all
            (s.0, admit_loop n.union_all nonzero s.1 start) in
        ((has_deletion ≡ true) ⊎ IsPositive s.1)
        → is_empty signed.1.frontier ≡ true
        → IsFixpoint (store ops signed n)
        → IsFixpoint (step_path ops has_deletion anchor_delta deltas n)
  unfolding step_path
  step_path-IsFixpoint has_deletion anchor_delta deltas n eu el signs stopped f =
      let s = seed_loop ops deltas (n.step_view, anchor_delta) in
      let start : Progress R = record {
        accumulated = n.accumulated;
        frontier = empty;
        out = n.output;
      } in
      let run = λ (p : Progress R).
        store ops (iterate ops n.max_iterations n.sentinel n.union_all (s.0, p)) n in
      pick_else IsFixpoint (has_deletion && not (n.union_all && n.linear_step)) _ _
        (ground (arith, eu, el))
        (elim (Bool-cases has_deletion) [
          | inl deletion ↦
              pick_then IsFixpoint has_deletion _ _ deletion (pick_then IsFixpoint _ _ _ stopped f)
          | inr insertion ↦ pick_else IsFixpoint has_deletion _ _ insertion (elim signs [
            | inl deletion ↦ absurd (ground (arith, insertion, deletion))
            | inr all ↦
                subst (λ (p : Progress R). IsFixpoint (run p))
                  (sym (admit_loop-positive n.union_all s.1 start all)) f
          ])
        ])

  -- A step of a UNION ALL node over a linear step keeps it at a fixed point: the result is the anchor's
  -- rows with what the step view derives, and is exactly what the step view has been fed. The changes are
  -- reduced and of tables other than the sentinel, they either take something back or give a seed of
  -- positive weights, and the loop ends within `max_iterations`.
  pub step-IsFixpoint :
      (anchor_delta : ZSet R) (inputs : List (T × ZSet R)) (n : PlanRecursiveNode ops)
      → n.sentinel ≡ sentinel
      → n.union_all ≡ true
      → n.linear_step ≡ true
      → IsReduced anchor_delta
      → All (IsBaseChange ops sentinel fed fed-apply_changes) inputs
      → ((deletes anchor_delta inputs n ≡ true) ⊎ IsPositive (seed anchor_delta inputs n).1)
      → is_empty (attempt anchor_delta inputs n).1.frontier ≡ true
      → IsFixpoint n
      → IsFixpoint (step ops anchor_delta inputs n)
  unfolding step
  step-IsFixpoint anchor_delta inputs n at_sentinel eu el r a signs stopped f =
      let deltas = base_deltas inputs in
      let anchor = take_in anchor_delta (n.anchor_total, false) in
      let totals = take_bases deltas (n.base_totals, anchor.1) in
      let taken : PlanRecursiveNode ops = record n {
        anchor_total = anchor.0;
        base_totals = totals.0;
        output = empty;
      } in
      let total = take_in-plus anchor_delta n.anchor_total false in
      let ra : IsReduced anchor.0 =
        subst IsReduced (sym total)
          (plus-IsReduced n.anchor_total anchor_delta f.anchor-IsReduced) in
      let sum = λ (row : R). sym (
        ap (λ (z : ZSet R). get z row) total
        ∙ (get-plus n.anchor_total anchor_delta row f.anchor-IsReduced r).0) in
      let stored =
        store-IsFixpoint taken (λ row. get n.anchor_total row +ℤ get anchor_delta row)
          (attempt anchor_delta inputs n) stopped sum ra
          (attempt-IsDerived anchor_delta inputs n at_sentinel eu r a f) in
      let h = step_path-IsFixpoint totals.1 anchor_delta deltas taken eu el signs stopped stored in
      record {
        valid = h.valid;
        accumulated-IsReduced = h.accumulated-IsReduced;
        anchor-IsReduced = h.anchor-IsReduced;
        solved = h.solved;
        fed_all = h.fed_all;
      }
