-- ===== src/SetView.antt =====
-- include/dbsp_set_ops.hpp, NativeSetView: UNION, INTERSECT and EXCEPT of two views, kept up to date
-- by the deltas of the two.
pub mod Rows
pub mod Result
use duck_dbsp.Prelude.{
  ℕ, ◌+◌, ◌%◌, ◌^◌, Bool, true, false, List, [], ◌∷◌, if◌then◌else◌, ◌&&◌, not, ◌||◌,
}
use duck_dbsp.Prelude.Int.{ℤ, pos, ◌+ℤ◌, ◌-ℤ◌, ltb_ℤ, ◌==ℤ◌}
use duck_dbsp.Prelude.Equality.{Eq, ◌==◌}
use duck_dbsp.Zset
use duck_dbsp.Zset.{ZSet, empty}
use duck_dbsp.View.{ViewOps}

-- duckdb::SetOperationType, and the values for which `compute_out` falls to its default.
pub data SetOperation : Type 0 where
  union_op intersect_op except_op other_op : SetOperation

abbrev pub min_ℤ : ℤ → ℤ → ℤ
min_ℤ a b = if ltb_ℤ b a then b else a

abbrev pub max_ℤ : ℤ → ℤ → ℤ
max_ℤ a b = if ltb_ℤ a b then b else a

abbrev pub to_ℤ : Bool → ℤ
to_ℤ b = if b then pos 1 else pos 0

-- The output weight of a row from its weights in the two inputs; the flag is `all_`.
unfoldable pub compute_out : SetOperation → Bool → ℤ → ℤ → ℤ
compute_out union_op true l r = l +ℤ r
compute_out union_op false l r = to_ℤ (ltb_ℤ (pos 0) (l +ℤ r))
compute_out intersect_op true l r = min_ℤ (max_ℤ (pos 0) l) (max_ℤ (pos 0) r)
compute_out intersect_op false l r = to_ℤ (ltb_ℤ (pos 0) l && ltb_ℤ (pos 0) r)
compute_out except_op true l r = max_ℤ (pos 0) (l -ℤ r)
compute_out except_op false l r = to_ℤ (ltb_ℤ (pos 0) l && not (ltb_ℤ (pos 0) r))
compute_out other_op all l r = pos 0

-- `std::set<DuckDBRow>`: the rows once each. The order, that of the rows, shows in no weight.
module _ {ℓ} {R : Type ℓ} ⦃er : Eq R⦄ where
  unfoldable pub member : R → List R → Bool
  member x [] = false
  member x (y ∷ ys) = if y == x then true else member x ys

  unfoldable pub insert_row : R → List R → List R
  unfolding member
  insert_row x rows = if member x rows then rows else x ∷ rows

  unfoldable pub insert_rows : ZSet R → List R → List R
  unfolding insert_row
  insert_rows [] rows = rows
  insert_rows ((x, w) ∷ z) rows = insert_rows z (insert_row x rows)

module _ {ℓ κ} {T : Type ℓ} {R : Type κ} ⦃er : Eq R⦄ (ops : ViewOps T R) where
  open ops use {View, apply_changes, get_result, get_delta}

  pub record SetView : Type (ℓ ⊔ κ) where
    pub left_view : View
    pub right_view : View
    pub kind : SetOperation
    pub all_rows : Bool
    pub result : ZSet R
    pub delta : ZSet R
    pub version : ℕ

  -- `apply_op_delta`, on the result and the delta.
  unfoldable pub apply_op_delta :
      SetOperation → Bool → R → ℤ → ℤ → ℤ → ℤ → ZSet R × ZSet R → ZSet R × ZSet R
  apply_op_delta kind all x old_l old_r new_l new_r (result, delta) =
      let d = compute_out kind all new_l new_r -ℤ compute_out kind all old_l old_r in
      if not (d ==ℤ pos 0) then (Zset.insert x d result, Zset.insert x d delta) else (result, delta)

  -- The loop over the rows that changed in either child.
  unfoldable pub update_rows : SetView → View → View → List R → ZSet R × ZSet R → ZSet R × ZSet R
  unfolding apply_op_delta
  update_rows v l r [] s = s
  update_rows v l r (x ∷ rows) s =
      let new_l = Zset.get (get_result l) x in
      let old_l = new_l -ℤ Zset.get (get_delta l) x in
      let new_r = Zset.get (get_result r) x in
      let old_r = new_r -ℤ Zset.get (get_delta r) x in
      update_rows v l r rows (apply_op_delta v.kind v.all_rows x old_l old_r new_l new_r s)

  unfoldable pub apply_set_changes : T → ZSet R → SetView → SetView
  unfolding update_rows insert_rows
  apply_set_changes table changes v =
      let l = apply_changes table changes v.left_view in
      let r = apply_changes table changes v.right_view in
      let rows = insert_rows (get_delta r) (insert_rows (get_delta l) []) in
      let (result, delta) = update_rows v l r rows (v.result, empty) in
      record v {
        left_view = l;
        right_view = r;
        result = result;
        delta = delta;
        version = (v.version + 1) % 2 ^ 64;
      }

  unfoldable pub reset_set : SetView → SetView
  reset_set v = record v {
    left_view = ops.reset v.left_view;
    right_view = ops.reset v.right_view;
    result = empty;
    delta = empty;
    version = 0;
  }
