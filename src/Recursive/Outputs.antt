-- ===== src/Recursive/Outputs.antt =====
-- include/dbsp_plan_recursive.hpp, PlanRecursiveNode: on every path of `step` the output is what the
-- result has changed by.
use mathlib.Core.Path.{subst}
use duck_dbsp.Prelude.{
  ◌≡◌, refl, sym, ap, ◌∙◌, Bool, true, false, ◌&&◌, not, List, [], ◌∷◌, if◌then◌else◌, arith,
}
use duck_dbsp.Prelude.Int.{ℤ, ◌-ℤ◌, int_laws}
use duck_dbsp.Prelude.Equality.{Eq}
use duck_dbsp.Flat.{find}
use duck_dbsp.Zset.{ZSet, empty, get, plus, minus}
use duck_dbsp.Zset.Reduced.{IsReduced, empty-IsReduced, plus-IsReduced, minus-IsReduced}
use duck_dbsp.Zset.Same.{◌≈◌}
use duck_dbsp.Zset.Weights.{get-plus}
use duck_dbsp.Indexed.{is_empty}
use duck_dbsp.Stream.Run.{outputs, final, sum_all, get-outputs}
use duck_dbsp.View.{ViewOps}
use duck_dbsp.Recursive.{
  Progress, PlanRecursiveNode, positive, nonzero, admit_loop, classify, iterate, base_deltas,
  seed_loop, recompute, classify_bases, overdelete, rederive, store, dred, step_path, step, take_in,
  take_bases, reset_node,
}
use duck_dbsp.Recursive.Balance.{
  IsRelation, IsBalanced, admit_loop-IsBalanced, classify-IsBalanced, iterate-IsBalanced,
  overdelete-IsBalanced, classify_bases-IsBalanced, rederive-IsBalanced,
}

module _ {ℓ κ} {T : Type ℓ} {R : Type κ} ⦃et : Eq T⦄ ⦃er : Eq R⦄ (ops : ViewOps T R) where
  abbrev Node : Type (ℓ ⊔ κ)
  Node = PlanRecursiveNode ops

  -- The result is reduced, and a relation for UNION.
  pub record IsResult (union_all : Bool) (z : ZSet R) : Type κ where
    pub reduced : IsReduced z
    pub relation : union_all ≡ false → IsRelation z

  -- What the node may be after the result was `before`, and the output empty.
  pub record IsUpdate (union_all : Bool) (before : ZSet R) (n : Node) : Type κ where
    pub kind : n.union_all ≡ union_all
    pub result : IsResult union_all n.accumulated
    pub output-IsReduced : IsReduced n.output
    pub output_lem : (row : R) → get n.output row ≡ get n.accumulated row -ℤ get before row

  IsBalanced-start :
      (u : Bool) (z out : ZSet R)
      → out ≡ empty
      → IsResult u z
      → IsBalanced z u (record { accumulated = z; frontier = empty; out = out })
  unfolding get find
  IsBalanced-start u z out e r = record {
    accumulated-IsReduced = r.reduced;
    out-IsReduced = rw e empty-IsReduced;
    sum = λ row. omega (int_laws, ap (λ (o : ZSet R). get o row) e);
    relation = r.relation;
  }

  -- The node before one of the paths: nothing has been put out.
  pub record IsReady (n : Node) : Type κ where
    pub no_output : n.output ≡ empty
    pub result : IsResult n.union_all n.accumulated

  difference :
      (out z old : ZSet R) (row : R)
      → out ≡ empty
      → IsReduced z
      → IsReduced old
      → get (minus (plus out z) old) row ≡ get z row -ℤ get old row
  unfolding get find
  difference out z old row e r o =
      let ro : IsReduced out = rw e empty-IsReduced in
      omega (
        int_laws,
        ap (λ (o : ZSet R). get o row) e,
        (get-plus out z row ro r).0,
        (get-plus (plus out z) old row (plus-IsReduced out z ro) o).1,
      )

  -- The result starts again from nothing, and the output is the difference.
  recompute-IsUpdate : (n : Node) → IsReady n → IsUpdate n.union_all n.accumulated (recompute ops n)
  unfolding recompute get find
  recompute-IsUpdate n ready =
      let s = seed_loop ops (base_deltas n.base_totals) (ops.reset n.step_view, n.anchor_total) in
      let start : Progress R = record { accumulated = empty; frontier = empty; out = empty } in
      let u = n.union_all in
      let nothing =
        IsBalanced-start u empty empty refl
          (record { reduced = empty-IsReduced; relation = λ e row. omega arith }) in
      let b =
        iterate-IsBalanced ops empty n.max_iterations n.sentinel u s.0 _
          (admit_loop-IsBalanced empty u positive s.1 start nothing) in
      let old = ready.result.reduced in
      let rebuilt = b.accumulated-IsReduced in
      let put = plus-IsReduced n.output _ (rw ready.no_output empty-IsReduced) in
      record {
        kind = refl;
        result = record { reduced = rebuilt; relation = b.relation };
        output-IsReduced = minus-IsReduced _ n.accumulated put;
        output_lem = λ row. difference n.output _ n.accumulated row ready.no_output rebuilt old;
      }

  store-IsUpdate :
      (s : ops.View × Progress R) (n : Node)
      → IsBalanced n.accumulated n.union_all s.1
      → IsUpdate n.union_all n.accumulated (store ops s n)
  unfolding store
  store-IsUpdate (v, p) n b = record {
    kind = refl;
    result = record { reduced = b.accumulated-IsReduced; relation = b.relation };
    output-IsReduced = b.out-IsReduced;
    output_lem = λ row. omega (int_laws, b.sum row);
  }

  -- Either branch of a test.
  if-IsUpdate :
      (u : Bool) (before : ZSet R) (b : Bool) (x y : Node)
      → (b ≡ true → IsUpdate u before x)
      → (b ≡ false → IsUpdate u before y)
      → IsUpdate u before (if b then x else y)
  if-IsUpdate u before true x y f g = f refl
  if-IsUpdate u before false x y f g = g refl

  -- A recomputation after the step view has been used.
  recover-IsUpdate :
      (v : ops.View) (n : Node)
      → IsReady n
      → IsUpdate n.union_all n.accumulated (recompute ops (record n { step_view = v }))
  recover-IsUpdate v n ready =
      recompute-IsUpdate (record n { step_view = v })
        (record { no_output = ready.no_output; result = ready.result })

  dred-IsUpdate :
      (anchor_delta : ZSet R) (deltas : List (T × ZSet R)) (n : Node)
      → n.union_all ≡ false
      → IsReady n
      → IsUpdate n.union_all n.accumulated (dred ops anchor_delta deltas n)
  unfolding dred
  dred-IsUpdate anchor_delta deltas n u ready =
      let base = n.accumulated in
      let start : Progress R = record { accumulated = base; frontier = empty; out = n.output } in
      let seeded = classify_bases ops deltas (n.step_view, classify anchor_delta start) in
      let deleted = overdelete ops n.max_iterations n.sentinel seeded in
      let derived = rederive ops n.max_iterations n.sentinel n.anchor_total deleted in
      let begun : IsBalanced base false start =
        subst (λ (b : Bool). IsBalanced base b start) u
          (IsBalanced-start n.union_all base n.output ready.no_output ready.result) in
      let b1 =
        classify_bases-IsBalanced ops base deltas n.step_view _
          (classify-IsBalanced base anchor_delta start begun) in
      let b2 = overdelete-IsBalanced ops base n.max_iterations n.sentinel seeded.0 seeded.1 b1 in
      let b3 =
        rederive-IsBalanced ops base n.max_iterations n.sentinel n.anchor_total deleted.0 deleted.1
          b2 in
      if-IsUpdate n.union_all base (not (is_empty deleted.1.frontier)) _ _
        (λ e. recover-IsUpdate deleted.0 n ready)
        (λ e.
          if-IsUpdate n.union_all base (not (is_empty derived.1.frontier)) _ _
            (λ e. recover-IsUpdate derived.0 n ready)
            (λ e.
              store-IsUpdate derived n
                (subst (λ (b : Bool). IsBalanced base b derived.1) (sym u) b3)))

  step_path-IsUpdate :
      (has_deletion : Bool) (anchor_delta : ZSet R) (deltas : List (T × ZSet R)) (n : Node)
      → IsReady n
      → IsUpdate n.union_all n.accumulated (step_path ops has_deletion anchor_delta deltas n)
  unfolding step_path
  step_path-IsUpdate has_deletion anchor_delta deltas n ready =
      let base = n.accumulated in
      let u = n.union_all in
      let start : Progress R = record { accumulated = base; frontier = empty; out = n.output } in
      let begun = IsBalanced-start u base n.output ready.no_output ready.result in
      let s = seed_loop ops deltas (n.step_view, anchor_delta) in
      let admitted = λ (test : ℤ → Bool).
        iterate ops n.max_iterations n.sentinel u (s.0, admit_loop u test s.1 start) in
      let balanced = λ (test : ℤ → Bool).
        iterate-IsBalanced ops base n.max_iterations n.sentinel u s.0 _
          (admit_loop-IsBalanced base u test s.1 start begun) in
      if-IsUpdate u base (has_deletion && not (u && n.linear_step)) _ _
        (λ e.
          if-IsUpdate u base u _ _ (λ e. recompute-IsUpdate n ready)
            (λ e. dred-IsUpdate anchor_delta deltas n e ready))
        (λ e.
          if-IsUpdate u base has_deletion _ _
            (λ e.
              if-IsUpdate u base (is_empty (admitted nonzero).1.frontier) _ _
                (λ e. store-IsUpdate (admitted nonzero) n (balanced nonzero))
                (λ e. recover-IsUpdate (admitted nonzero).0 n ready))
            (λ e. store-IsUpdate (admitted positive) n (balanced positive)))

  -- On every path of a step the output is reduced and is what the result has changed by, and the result
  -- stays reduced, and for UNION a relation.
  pub step-IsUpdate :
      (anchor_delta : ZSet R) (inputs : List (T × ZSet R)) (n : Node)
      → IsResult n.union_all n.accumulated
      → IsUpdate n.union_all n.accumulated (step ops anchor_delta inputs n)
  unfolding step
  step-IsUpdate anchor_delta inputs n r =
      let deltas = base_deltas inputs in
      let anchor = take_in anchor_delta (n.anchor_total, false) in
      let totals = take_bases deltas (n.base_totals, anchor.1) in
      let h =
        step_path-IsUpdate totals.1 anchor_delta deltas
          (record n { anchor_total = anchor.0; base_totals = totals.0; output = empty })
          (record { no_output = refl; result = r }) in
      record {
        kind = h.kind;
        result = h.result;
        output-IsReduced = h.output-IsReduced;
        output_lem = h.output_lem;
      }

  -- What a step puts out.
  abbrev pub recursive_output : Node → ZSet R × List (T × ZSet R) → ZSet R × Node
  recursive_output n d = ((step ops d.0 d.1 n).output, step ops d.0 d.1 n)

  step-IsResult :
      (anchor_delta : ZSet R) (inputs : List (T × ZSet R)) (n : Node)
      → IsResult n.union_all n.accumulated
      → let next = step ops anchor_delta inputs n in IsResult next.union_all next.accumulated
  step-IsResult anchor_delta inputs n r =
      let next = step ops anchor_delta inputs n in
      let h = step-IsUpdate anchor_delta inputs n r in
      subst (λ (u : Bool). IsResult u next.accumulated) (sym h.kind) h.result

  final-IsResult :
      (steps : List (ZSet R × List (T × ZSet R))) (n : Node)
      → IsResult n.union_all n.accumulated
      → let last = final recursive_output n steps in
        IsResult n.union_all last.accumulated × (last.union_all ≡ n.union_all)
  final-IsResult [] n r = (r, refl)
  final-IsResult ((anchor_delta, inputs) ∷ steps) n r =
      let next = step ops anchor_delta inputs n in
      let kind = (step-IsUpdate anchor_delta inputs n r).kind in
      let (result, same) = final-IsResult steps next (step-IsResult anchor_delta inputs n r) in
      let last = final recursive_output next steps in
      (subst (λ (u : Bool). IsResult u last.accumulated) kind result, same ∙ kind)

  reset-IsResult : (n : Node) → IsResult (reset_node ops n).union_all (reset_node ops n).accumulated
  unfolding reset_node get find
  reset-IsResult n = record { reduced = empty-IsReduced; relation = λ e row. omega arith }

  -- From a reset node on, over any steps, on whichever paths they go, the outputs add up to the node's
  -- result, and the result of a UNION has each row at most once and none less than not at all.
  pub recursive_sum :
      (n : Node) (steps : List (ZSet R × List (T × ZSet R)))
      → let last = final recursive_output (reset_node ops n) steps in
        (sum_all (outputs recursive_output (reset_node ops n) steps) ≈ last.accumulated)
        × (n.union_all ≡ false → IsRelation last.accumulated)
  unfolding reset_node get find
  recursive_sum n steps = (
    λ row. omega (
      int_laws,
      get-outputs recursive_output (λ s. IsResult s.union_all s.accumulated)
          (λ s. get s.accumulated row) row
          (λ s d r.
            let h = step-IsUpdate d.0 d.1 s r in
            (step-IsResult d.0 d.1 s r, h.output-IsReduced, h.output_lem row))
          (reset_node ops n) empty steps (reset-IsResult n) empty-IsReduced,
    ),
    (final-IsResult steps (reset_node ops n) (reset-IsResult n)).0.relation,
  )
