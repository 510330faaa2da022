-- ===== src/View/Batch.antt =====
-- include/dbsp_duckdb_types.hpp, NativeMaterializedView::apply_changes_batch: the changes of one commit
-- from several tables, one after the other, with the sum of the deltas.
use duck_dbsp.Prelude.{◌≡◌, Bool, true, false, List, [], ◌∷◌, if◌then◌else◌, All}
use duck_dbsp.Prelude.Int.{◌+ℤ◌, int_laws}
use duck_dbsp.Prelude.Equality.{Eq}
use duck_dbsp.Flat.{find}
use duck_dbsp.Zset
use duck_dbsp.Zset.{ZSet, empty, get, plus}
use duck_dbsp.Zset.Reduced.{IsReduced, empty-IsReduced, plus-IsReduced}
use duck_dbsp.Zset.Same.{◌≈◌}
use duck_dbsp.Zset.Weights.{get-plus}
use duck_dbsp.View.{ViewOps}

module _ {ℓ κ} {T : Type ℓ} {R : Type κ} ⦃er : Eq R⦄ (ops : ViewOps T R) where
  open ops use {View, apply_changes, get_result, get_delta}

  -- A view with the base class's own fields.
  pub record BatchView : Type (ℓ ⊔ κ) where
    pub view : View
    pub batched : Bool
    pub batch_delta : ZSet R

  unfoldable pub batch_loop : List (T × ZSet R) → View × ZSet R → View × ZSet R
  batch_loop [] s = s
  batch_loop ((src, delta) ∷ changes) (v, batch_delta) =
      let v' = apply_changes src delta v in
      batch_loop changes (v', Zset.plus batch_delta (get_delta v'))

  unfoldable pub apply_changes_batch : List (T × ZSet R) → BatchView → BatchView
  unfolding batch_loop
  apply_changes_batch [] b = record b { batched = false }
  apply_changes_batch ((src, delta) ∷ []) b = record b {
    view = apply_changes src delta b.view;
    batched = false;
  }
  apply_changes_batch (first ∷ second ∷ changes) b =
      let (v, batch_delta) = batch_loop (first ∷ second ∷ changes) (b.view, empty) in
      record { view = v; batched = true; batch_delta = batch_delta }

  unfoldable pub get_batch_delta : BatchView → ZSet R
  get_batch_delta b = if b.batched then b.batch_delta else get_delta b.view

  abbrev pub IsReducedChange : T × ZSet R → Type κ
  IsReducedChange c = IsReduced c.1

  loop-result :
      (changes : List (T × ZSet R)) (v : View) (sum : ZSet R) (x : R)
      → All IsReducedChange changes
      → ops.IsValid v
      → IsReduced sum
      → let s = batch_loop changes (v, sum) in
        IsReduced s.1 × (get (get_result s.0) x +ℤ get sum x ≡ get (get_result v) x +ℤ get s.1 x)
  unfolding batch_loop
  loop-result [] v sum x rs valid r = (r, omega int_laws)
  loop-result ((src, delta) ∷ changes) v sum x rs valid r =
      let v' = apply_changes src delta v in
      let valid' = ops.apply_changes-IsValid src delta v rs.0 valid in
      let rd = ops.delta-IsReduced v' valid' in
      let (reduced, rest) =
        loop-result changes v' (plus sum (get_delta v')) x rs.1 valid'
          (plus-IsReduced sum (get_delta v') r) in
      (
        reduced,
        omega (
          int_laws,
          rest,
          (get-plus sum (get_delta v') x r rd).0,
          (get-plus (get_result v) (get_delta v') x (ops.result-IsReduced v valid) rd).0,
          ops.result-apply_changes src delta v rs.0 valid x,
        ),
      )

  -- After the reduced changes of one commit, at least one, to a valid view, the batch's delta is what
  -- the result has changed by, whichever tables the changes come from.
  pub result-apply_changes_batch :
      (first : T × ZSet R) (changes : List (T × ZSet R)) (b : BatchView)
      → All IsReducedChange (first ∷ changes)
      → ops.IsValid b.view
      → let b' = apply_changes_batch (first ∷ changes) b in
        get_result b'.view ≈ plus (get_result b.view) (get_batch_delta b')
  unfolding apply_changes_batch get_batch_delta get find
  result-apply_changes_batch (src, delta) [] b rs valid x =
      ops.result-apply_changes src delta b.view rs.0 valid x
  result-apply_changes_batch first (second ∷ changes) b rs valid x =
      let s = batch_loop (first ∷ second ∷ changes) (b.view, empty) in
      let (reduced, sum) =
        loop-result (first ∷ second ∷ changes) b.view empty x rs valid empty-IsReduced in
      omega (
        int_laws,
        sum,
        (get-plus (get_result b.view) s.1 x (ops.result-IsReduced b.view valid) reduced).0,
      )
