-- ===== src/Recursive/Derived.antt =====
-- include/dbsp_plan_recursive.hpp, PlanRecursiveNode: what the loops of UNION ALL keep of the recursive
-- equation.
use duck_dbsp.Prelude.{
  ℕ, zero, suc, ◌≡◌, refl, ◌∙◌, inl, inr, Bool, true, false, List, [], ◌∷◌, if◌then◌else◌, All,
  Bool-cases,
}
use duck_dbsp.Prelude.Int.{ℤ, ◌+ℤ◌, int_laws}
use duck_dbsp.Prelude.Equality.{Eq, ◌==◌}
use duck_dbsp.Flat.{find}
use duck_dbsp.Zset.{ZSet, empty, get, plus}
use duck_dbsp.Zset.Reduced.{IsReduced, empty-IsReduced, plus-IsReduced}
use duck_dbsp.Zset.Weights.{get-plus}
use duck_dbsp.Indexed.{is_empty}
use duck_dbsp.View.{ViewOps}
use duck_dbsp.Recursive.{Progress, nonzero, admit_loop, iterate, seed_loop}
use duck_dbsp.Recursive.Admitted.{admit_loop-all}

-- What a view has been fed at the sentinel: a weight for each row.
module _ {ℓ κ} {T : Type ℓ} {R : Type κ} ⦃et : Eq T⦄ ⦃er : Eq R⦄ (ops : ViewOps T R) (sentinel : T)
    (fed : ops.View → R → ℤ)
    (fed-apply_changes : (t : T) (z : ZSet R) (v : ops.View) (row : R)
      → fed (ops.apply_changes t z v) row
        ≡ (if t == sentinel then fed v row +ℤ get z row else fed v row)) where
  open ops use {View, apply_changes, get_delta, get_result}

  -- The result is what the anchor has and what the step view has derived, and all of it but the frontier
  -- has been fed to the step view.
  pub record IsDerived (anchor : R → ℤ) (v : View) (accumulated frontier : ZSet R)
      : Type (ℓ ⊔ κ) where
    pub valid : ops.IsValid v
    pub accumulated-IsReduced : IsReduced accumulated
    pub frontier-IsReduced : IsReduced frontier
    pub derived : (row : R) → get accumulated row ≡ anchor row +ℤ get (get_result v) row
    pub fed_all : (row : R) → get accumulated row ≡ fed v row +ℤ get frontier row

  round-IsDerived :
      (anchor : R → ℤ) (v : View) (accumulated frontier : ZSet R)
      → IsDerived anchor v accumulated frontier
      → let v' = apply_changes sentinel frontier v in
        let delta = get_delta v' in IsDerived anchor v' (plus accumulated delta) (plus empty delta)
  unfolding get find
  round-IsDerived anchor v accumulated frontier d =
      let v' = apply_changes sentinel frontier v in
      let delta = get_delta v' in
      let valid' = ops.apply_changes-IsValid sentinel frontier v d.frontier-IsReduced d.valid in
      let r = ops.delta-IsReduced v' valid' in
      let old = ops.result-IsReduced v d.valid in
      let same = (et.equal_iff sentinel sentinel).1 refl in
      record {
        valid = valid';
        accumulated-IsReduced = plus-IsReduced accumulated delta d.accumulated-IsReduced;
        frontier-IsReduced = plus-IsReduced empty delta empty-IsReduced;
        derived = λ row. omega (
          int_laws,
          d.derived row,
          (get-plus accumulated delta row d.accumulated-IsReduced r).0,
          (get-plus (get_result v) delta row old r).0,
          ops.result-apply_changes sentinel frontier v d.frontier-IsReduced d.valid row,
        );
        fed_all = λ row. omega (
          int_laws,
          d.fed_all row,
          (get-plus accumulated delta row d.accumulated-IsReduced r).0,
          (get-plus empty delta row empty-IsReduced r).0,
          rw same at (fed-apply_changes sentinel frontier v row),
        );
      }

  pub iterate-IsDerived :
      (u : Bool) (anchor : R → ℤ) (rounds : ℕ) (v : View) (p : Progress R)
      → u ≡ true
      → IsDerived anchor v p.accumulated p.frontier
      → let s = iterate ops rounds sentinel u (v, p) in
        IsDerived anchor s.0 s.1.accumulated s.1.frontier
  unfolding iterate
  iterate-IsDerived u anchor zero v p e d = d
  iterate-IsDerived u anchor (suc rounds) v p e d = elim (Bool-cases (is_empty p.frontier)) [
    | inl stop ↦ rw stop d
    | inr go ↦
        let v' = apply_changes sentinel p.frontier v in
        let (all, queued) = admit_loop-all u (get_delta v') (record p { frontier = empty }) e in
        let next = round-IsDerived anchor v p.accumulated p.frontier d in
        rw go (iterate-IsDerived u anchor rounds v' _ e (rw (all, queued) next))
  ]

  -- The changes of base tables: reduced, and none of the sentinel.
  abbrev pub IsBaseChange : T × ZSet R → Type κ
  IsBaseChange c = IsReduced c.1 × ((c.0 == sentinel) ≡ false)

  seed_loop-lem :
      (deltas : List (T × ZSet R)) (v : View) (seed : ZSet R)
      → All IsBaseChange deltas
      → ops.IsValid v
      → IsReduced seed
      → let s = seed_loop ops deltas (v, seed) in
        ops.IsValid s.0
        × IsReduced s.1
        × ((row : R)
            → (get (get_result s.0) row +ℤ get seed row ≡ get (get_result v) row +ℤ get s.1 row)
              × (fed s.0 row ≡ fed v row))
  unfolding seed_loop
  seed_loop-lem [] v seed a valid r = (valid, r, λ row. (refl, refl))
  seed_loop-lem ((t, d) ∷ deltas) v seed a valid r =
      let v' = apply_changes t d v in
      let valid' = ops.apply_changes-IsValid t d v a.0.0 valid in
      let rd = ops.delta-IsReduced v' valid' in
      let (last_valid, reduced, rest) =
        seed_loop-lem deltas v' (plus seed (get_delta v')) a.1 valid'
          (plus-IsReduced seed (get_delta v') r) in
      (
        last_valid,
        reduced,
        λ row. (
          omega (
            int_laws,
            (rest row).0,
            (get-plus seed (get_delta v') row r rd).0,
            (get-plus (get_result v) (get_delta v') row (ops.result-IsReduced v valid) rd).0,
            ops.result-apply_changes t d v a.0.0 valid row,
          ),
          (rest row).1 ∙ rw a.0.1 at (fed-apply_changes t d v row),
        ),
      )

  -- The start of the loop: the seed is admitted and is the frontier.
  pub seeded-IsDerived :
      (u : Bool) (anchor : R → ℤ) (anchor_delta : ZSet R) (deltas : List (T × ZSet R)) (v : View)
      (accumulated out : ZSet R)
      → u ≡ true
      → IsDerived anchor v accumulated empty
      → All IsBaseChange deltas
      → IsReduced anchor_delta
      → let s = seed_loop ops deltas (v, anchor_delta) in
        let p =
          admit_loop u nonzero s.1
            (record { accumulated = accumulated; frontier = empty; out = out }) in
        IsDerived (λ row. anchor row +ℤ get anchor_delta row) s.0 p.accumulated p.frontier
  unfolding get find
  seeded-IsDerived u anchor anchor_delta deltas v accumulated out e d a r =
      let s = seed_loop ops deltas (v, anchor_delta) in
      let (valid, reduced, rest) = seed_loop-lem deltas v anchor_delta a d.valid r in
      let (all, queued) =
        admit_loop-all u s.1 (record { accumulated = accumulated; frontier = empty; out = out })
          e in
      rw (all, queued)
        (record {
          valid = valid;
          accumulated-IsReduced = plus-IsReduced accumulated s.1 d.accumulated-IsReduced;
          frontier-IsReduced = plus-IsReduced empty s.1 empty-IsReduced;
          derived = λ row. omega (
            int_laws,
            d.derived row,
            (rest row).0,
            (get-plus accumulated s.1 row d.accumulated-IsReduced reduced).0,
          );
          fed_all = λ row. omega (
            int_laws,
            d.fed_all row,
            (rest row).1,
            (get-plus accumulated s.1 row d.accumulated-IsReduced reduced).0,
            (get-plus empty s.1 row empty-IsReduced reduced).0,
          );
        })
