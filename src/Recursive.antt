-- ===== src/Recursive.antt =====
-- include/dbsp_plan_recursive.hpp, PlanRecursiveNode: WITH RECURSIVE as a node that feeds a view for the
-- recursive step with its own result. The step view is any view; that it throws is not modelled.
pub mod Balance
pub mod Outputs
pub mod Admitted
pub mod Derived
pub mod Fixpoint
use duck_dbsp.Prelude.{
  ℕ, zero, suc, Bool, true, false, ◌&&◌, ◌||◌, not, List, [], ◌∷◌, if◌then◌else◌,
}
use duck_dbsp.Prelude.Int.{ℤ, pos, negsuc, ltb_ℤ, ◌==ℤ◌}
use duck_dbsp.Prelude.Equality.{Eq}
use duck_dbsp.Umap
use duck_dbsp.Umap.{Umap}
use duck_dbsp.Zset.{ZSet, empty, get, insert, plus, minus}
use duck_dbsp.Indexed.{is_empty}
use duck_dbsp.View.{ViewOps}

-- What the loops change: `accumulated_`, the frontier, and the output they add to.
pub record Progress {ℓ} (R : Type ℓ) : Type ℓ where
  pub accumulated : ZSet R
  pub frontier : ZSet R
  pub out : ZSet R

abbrev pub positive : ℤ → Bool
positive w = ltb_ℤ (pos 0) w

abbrev pub nonzero : ℤ → Bool
nonzero w = not (w ==ℤ pos 0)

module _ {ℓ} {R : Type ℓ} ⦃er : Eq R⦄ where
  -- `insert` of a row into all three, with its weight in the frontier.
  unfoldable pub enter : R → ℤ → ℤ → Progress R → Progress R
  enter row w in_frontier p = record {
    accumulated = insert row w p.accumulated;
    frontier = insert row in_frontier p.frontier;
    out = insert row w p.out;
  }

  unfoldable pub admit : Bool → R → ℤ → Progress R → Progress R
  unfolding enter
  admit union_all row w p =
      if union_all
      then enter row w w p
      else if positive w && (get p.accumulated row ==ℤ pos 0)
      then enter row (pos 1) (pos 1) p
      else p

  -- The loops that admit the rows of a Z-set whose weights pass a test.
  unfoldable pub admit_loop : Bool → (ℤ → Bool) → ZSet R → Progress R → Progress R
  unfolding admit
  admit_loop union_all test [] p = p
  admit_loop union_all test ((row, w) ∷ z) p =
      admit_loop union_all test z (if test w then admit union_all row w p else p)

  -- The lambda `retract` of `dred`.
  unfoldable pub retract : R → Progress R → Progress R
  unfolding enter
  retract row p = if get p.accumulated row ==ℤ pos 0 then p else enter row (negsuc 0) (pos 1) p

  -- The lambda `classify`, and the loop of the overdeletion over a delta.
  unfoldable pub classify : ZSet R → Progress R → Progress R
  unfolding retract
  classify [] p = p
  classify ((row, w) ∷ z) p = classify z (if ltb_ℤ w (pos 0) then retract row p else p)

  -- The loop over a delta that integrates it into a total and looks for deletions.
  unfoldable pub take_in : ZSet R → ZSet R × Bool → ZSet R × Bool
  take_in [] s = s
  take_in ((row, w) ∷ z) (total, has_deletion) =
      take_in z (insert row w total, has_deletion || ltb_ℤ w (pos 0))

  -- Each row once less, whatever its weight.
  unfoldable pub once_less : ZSet R → ZSet R → ZSet R
  once_less result [] = result
  once_less result ((row, w) ∷ z) = once_less (insert row (negsuc 0) result) z

module _ {ℓ κ} {T : Type ℓ} {R : Type κ} ⦃et : Eq T⦄ ⦃er : Eq R⦄ where
  -- The base inputs with a delta that is not empty.
  unfoldable pub base_deltas : List (T × ZSet R) → List (T × ZSet R)
  base_deltas [] = []
  base_deltas ((table, d) ∷ inputs) =
      let rest = base_deltas inputs in if is_empty d then rest else (table, d) ∷ rest

  unfoldable pub take_bases : List (T × ZSet R) → Umap T (ZSet R) × Bool → Umap T (ZSet R) × Bool
  unfolding take_in
  take_bases [] s = s
  take_bases ((table, d) ∷ deltas) (totals, has_deletion) =
      let total = Umap.or_default empty (Umap.find table totals) in
      let (total', has_deletion') = take_in d (total, has_deletion) in
      take_bases deltas (Umap.update empty table (λ _. total') totals, has_deletion')

module _ {ℓ κ} {T : Type ℓ} {R : Type κ} ⦃et : Eq T⦄ ⦃er : Eq R⦄ (ops : ViewOps T R) where
  open ops use {View, apply_changes, get_delta, reset}

  pub record PlanRecursiveNode : Type (ℓ ⊔ κ) where
    pub step_view : View
    pub sentinel : T
    pub union_all : Bool
    pub linear_step : Bool
    pub max_iterations : ℕ
    pub accumulated : ZSet R
    pub anchor_total : ZSet R
    pub base_totals : Umap T (ZSet R)
    pub output : ZSet R
    pub has_output : Bool

  unfoldable pub iterate : ℕ → T → Bool → View × Progress R → View × Progress R
  unfolding admit_loop
  iterate zero sentinel union_all s = s
  iterate (suc rounds) sentinel union_all (v, p) =
      let v' = apply_changes sentinel p.frontier v in
      let next = admit_loop union_all nonzero (get_delta v') (record p { frontier = empty }) in
      let rest = iterate rounds sentinel union_all (v', next) in
      if is_empty p.frontier then (v, p) else rest

  -- The deltas of the base tables go through the step view.
  unfoldable pub seed_loop : List (T × ZSet R) → View × ZSet R → View × ZSet R
  seed_loop [] s = s
  seed_loop ((table, d) ∷ deltas) (v, seed) =
      let v' = apply_changes table d v in seed_loop deltas (v', plus seed (get_delta v'))

  unfoldable pub recompute : PlanRecursiveNode → PlanRecursiveNode
  unfolding iterate seed_loop base_deltas
  recompute n =
      let (v, seed) = seed_loop (base_deltas n.base_totals) (reset n.step_view, n.anchor_total) in
      let start : Progress R = record { accumulated = empty; frontier = empty; out = empty } in
      let (v', p) =
        iterate n.max_iterations n.sentinel n.union_all
          (v, admit_loop n.union_all positive seed start) in
      record n {
        step_view = v';
        accumulated = p.accumulated;
        output = minus (plus n.output p.accumulated) n.accumulated;
      }

  unfoldable pub classify_bases : List (T × ZSet R) → View × Progress R → View × Progress R
  unfolding classify
  classify_bases [] s = s
  classify_bases ((table, d) ∷ deltas) (v, p) =
      let v' = apply_changes table d v in classify_bases deltas (v', classify (get_delta v') p)

  unfoldable pub overdelete : ℕ → T → View × Progress R → View × Progress R
  unfolding classify
  overdelete zero sentinel s = s
  overdelete (suc rounds) sentinel (v, p) =
      let v' = apply_changes sentinel (minus empty p.frontier) v in
      let next = classify (get_delta v') (record p { frontier = empty }) in
      let rest = overdelete rounds sentinel (v', next) in
      if is_empty p.frontier then (v, p) else rest

  -- The second half of `dred`. Its tests and writes are those of `admit` for UNION, and its loop that of
  -- `iterate`.
  unfoldable pub rederive : ℕ → T → ZSet R → View × Progress R → View × Progress R
  unfolding iterate once_less
  rederive rounds sentinel anchor_total (v, p) =
      let survivors = p.accumulated in
      let cleared = apply_changes sentinel (once_less empty survivors) v in
      let v' = apply_changes sentinel survivors cleared in
      let image = admit_loop false positive (get_delta v') (record p { frontier = empty }) in
      iterate rounds sentinel false (v', admit_loop false positive anchor_total image)

  -- The node with what the loops have left.
  unfoldable pub store : View × Progress R → PlanRecursiveNode → PlanRecursiveNode
  store (v, p) n = record n { step_view = v; accumulated = p.accumulated; output = p.out }

  unfoldable pub dred : ZSet R → List (T × ZSet R) → PlanRecursiveNode → PlanRecursiveNode
  unfolding classify_bases overdelete rederive store recompute
  dred anchor_delta deltas n =
      let start : Progress R = record {
        accumulated = n.accumulated;
        frontier = empty;
        out = n.output;
      } in
      let seeded = classify_bases deltas (n.step_view, classify anchor_delta start) in
      let deleted = overdelete n.max_iterations n.sentinel seeded in
      let derived = rederive n.max_iterations n.sentinel n.anchor_total deleted in
      if not (is_empty deleted.1.frontier)
      then recompute (record n { step_view = deleted.0 })
      else if not (is_empty derived.1.frontier)
      then recompute (record n { step_view = derived.0 })
      else store derived n

  -- What `step` does on each path, before it sets `has_output_`.
  unfoldable pub step_path :
      Bool → ZSet R → List (T × ZSet R) → PlanRecursiveNode → PlanRecursiveNode
  unfolding dred
  step_path has_deletion anchor_delta deltas n =
      let signed_path = n.union_all && n.linear_step in
      let start : Progress R = record {
        accumulated = n.accumulated;
        frontier = empty;
        out = n.output;
      } in
      let (v, seed) = seed_loop deltas (n.step_view, anchor_delta) in
      let signed =
        iterate n.max_iterations n.sentinel n.union_all
          (v, admit_loop n.union_all nonzero seed start) in
      let inserted =
        iterate n.max_iterations n.sentinel n.union_all
          (v, admit_loop n.union_all positive seed start) in
      if has_deletion && not signed_path
      then (if n.union_all then recompute n else dred anchor_delta deltas n)
      else if has_deletion
      then (if is_empty signed.1.frontier
          then store signed n
          else recompute (record n { step_view = signed.0 }))
      else store inserted n

  unfoldable pub step : ZSet R → List (T × ZSet R) → PlanRecursiveNode → PlanRecursiveNode
  unfolding step_path take_bases
  step anchor_delta inputs n =
      let deltas = base_deltas inputs in
      let (anchor, anchor_deletion) = take_in anchor_delta (n.anchor_total, false) in
      let (totals, has_deletion) = take_bases deltas (n.base_totals, anchor_deletion) in
      let taken = record n { anchor_total = anchor; base_totals = totals; output = empty } in
      let stepped = step_path has_deletion anchor_delta deltas taken in
      record stepped { has_output = not (is_empty stepped.output) }

  unfoldable pub reset_node : PlanRecursiveNode → PlanRecursiveNode
  reset_node n = record n {
    step_view = reset n.step_view;
    accumulated = empty;
    anchor_total = empty;
    base_totals = [];
    output = empty;
    has_output = false;
  }

  abbrev pub clear_output : PlanRecursiveNode → PlanRecursiveNode
  clear_output n = record n { output = empty; has_output = false }
