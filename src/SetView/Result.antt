-- ===== src/SetView/Result.antt =====
-- The result of a set view is at all times the set operation on the results of its two views.
use duck_dbsp.Prelude.{
  ◌≡◌, refl, ap, ap₂, sym, ◌∙◌, Bool, true, false, [], if◌then◌else◌, inl, inr, Bool-cases,
}
use duck_dbsp.Prelude.Int.{ℤ, pos, ◌+ℤ◌, ◌-ℤ◌, int_laws}
use duck_dbsp.Prelude.Equality.{Eq}
use duck_dbsp.Flat.{find}
use duck_dbsp.Zset.{ZSet, empty, get, plus}
use duck_dbsp.Zset.Same.{◌≈◌}
use duck_dbsp.Zset.Reduced.{IsReduced, empty-IsReduced}
use duck_dbsp.Zset.Weights.{get-plus}
use duck_dbsp.SetView.Rows.{
  insert_rows-Unique, member-insert_rows, Moved, gain, gain-outside, update_rows-Moved,
}
use duck_dbsp.View.{ViewOps}
use duck_dbsp.SetView.{
  SetOperation, compute_out, member, insert_rows, SetView, apply_set_changes, union_op,
  intersect_op, except_op, other_op, reset_set,
}

module _ {ℓ κ} {T : Type ℓ} {R : Type κ} ⦃er : Eq R⦄ (ops : ViewOps T R) where
  open ops use {View, apply_changes, get_result, get_delta}

  -- The state a set view keeps: both children valid, and its result their set operation.
  pub record IsSetValid (v : SetView ops) : Type (ℓ ⊔ κ) where
    pub left-IsValid : ops.IsValid v.left_view
    pub right-IsValid : ops.IsValid v.right_view
    pub result-IsReduced : IsReduced v.result
    pub delta-IsReduced : IsReduced v.delta
    pub get-result :
        (x : R)
        → get v.result x
          ≡ compute_out v.kind v.all_rows
              (get (get_result v.left_view) x)
              (get (get_result v.right_view) x)

  old_weight :
      (t : T) (changes : ZSet R) (c : View) (x : R)
      → IsReduced changes
      → ops.IsValid c
      → get (get_result (apply_changes t changes c)) x
          -ℤ get (get_delta (apply_changes t changes c)) x
        ≡ get (get_result c) x
  old_weight t changes c x r valid =
      let c' = apply_changes t changes c in
      omega (
        int_laws,
        ops.result-apply_changes t changes c r valid x,
        (get-plus (get_result c) (get_delta c') x (ops.result-IsReduced c valid)
            (ops.delta-IsReduced c' (ops.apply_changes-IsValid t changes c r valid))).0,
      )

  -- The weight of a row in the set operation on the two children.
  abbrev pub set_weight : SetOperation → Bool → View → View → R → ℤ
  set_weight kind all l r x = compute_out kind all (get (get_result l) x) (get (get_result r) x)

  gain_weight :
      (t : T) (changes : ZSet R) (v : SetView ops) (x : R)
      → IsReduced changes
      → IsSetValid v
      → let l = apply_changes t changes v.left_view in
        let r = apply_changes t changes v.right_view in
        gain ops v l r x ≡ set_weight v.kind v.all_rows l r x -ℤ get v.result x
  gain_weight t changes v x r valid =
      let l = apply_changes t changes v.left_view in
      let r' = apply_changes t changes v.right_view in
      ap (λ w. set_weight v.kind v.all_rows l r' x -ℤ w)
        (ap₂ (compute_out v.kind v.all_rows)
            (old_weight t changes v.left_view x r valid.left-IsValid)
            (old_weight t changes v.right_view x r valid.right-IsValid)
          ∙ sym (valid.get-result x))

  round_gain :
      (t : T) (changes : ZSet R) (v : SetView ops) (x : R)
      → IsReduced changes
      → IsSetValid v
      → let l = apply_changes t changes v.left_view in
        let r = apply_changes t changes v.right_view in
        (if member x (insert_rows (get_delta r) (insert_rows (get_delta l) []))
          then gain ops v l r x
          else pos 0)
        ≡ set_weight v.kind v.all_rows l r x -ℤ get v.result x
  round_gain t changes v x r valid =
      let l = apply_changes t changes v.left_view in
      let r' = apply_changes t changes v.right_view in
      let left_rows = insert_rows (get_delta l) [] in
      let whole = gain_weight t changes v x r valid in
      elim (Bool-cases (member x (insert_rows (get_delta r') left_rows))) [
        | inl e ↦ rw e whole
        | inr e ↦
            let (out, er') = member-insert_rows (get_delta r') left_rows x e in
            let (_, el) = member-insert_rows (get_delta l) [] x out in
            rw e (sym (gain-outside ops v l r' x el er') ∙ whole)
      ]

  round-Moved :
      (t : T) (changes : ZSet R) (v : SetView ops)
      → IsReduced changes
      → IsSetValid v
      → let v' = apply_set_changes ops t changes v in
        Moved
          (λ x. set_weight v.kind v.all_rows v'.left_view v'.right_view x -ℤ get v.result x)
          (v.result, empty)
          (v'.result, v'.delta)
  unfolding apply_set_changes
  round-Moved t changes v r valid =
      let l = apply_changes t changes v.left_view in
      let r' = apply_changes t changes v.right_view in
      let left_rows = insert_rows (get_delta l) [] in
      let rows = insert_rows (get_delta r') left_rows in
      let unique =
        insert_rows-Unique (get_delta r') left_rows (insert_rows-Unique (get_delta l) [] tt) in
      let moved =
        update_rows-Moved ops v l r' rows (v.result, empty) unique valid.result-IsReduced
          empty-IsReduced in
      record {
        result-IsReduced = moved.result-IsReduced;
        delta-IsReduced = moved.delta-IsReduced;
        get-result = λ x.
            moved.get-result x ∙ ap (λ m. get v.result x +ℤ m) (round_gain t changes v x r valid);
        get-delta = λ x.
            moved.get-delta x
            ∙ ap (λ m. get {A = R} empty x +ℤ m) (round_gain t changes v x r valid);
      }

  cancel : (w n c : ℤ) → n ≡ w +ℤ (c -ℤ w) → n ≡ c
  cancel w n c e = omega (int_laws, e)

  -- Reduced changes of a table keep a set view valid: its children are valid, its result and delta are
  -- reduced, and each row's weight in the result is that of the set operation on the row's weights in
  -- the results of the children.
  pub apply_set_changes-IsSetValid :
      (t : T) (changes : ZSet R) (v : SetView ops)
      → IsReduced changes
      → IsSetValid v
      → IsSetValid (apply_set_changes ops t changes v)
  unfolding apply_set_changes
  apply_set_changes-IsSetValid t changes v r valid =
      let moved = round-Moved t changes v r valid in
      record {
        left-IsValid = ops.apply_changes-IsValid t changes v.left_view r valid.left-IsValid;
        right-IsValid = ops.apply_changes-IsValid t changes v.right_view r valid.right-IsValid;
        result-IsReduced = moved.result-IsReduced;
        delta-IsReduced = moved.delta-IsReduced;
        get-result = λ x. cancel _ _ _ (moved.get-result x);
      }

  -- A valid set view's delta after reduced changes of a table is what its result has changed by.
  pub set_result-apply_changes :
      (t : T) (changes : ZSet R) (v : SetView ops)
      → IsReduced changes
      → IsSetValid v
      → let v' = apply_set_changes ops t changes v in v'.result ≈ plus v.result v'.delta
  unfolding get find
  set_result-apply_changes t changes v r valid x =
      let v' = apply_set_changes ops t changes v in
      let moved = round-Moved t changes v r valid in
      omega (
        int_laws,
        moved.get-result x,
        moved.get-delta x,
        (get-plus v.result v'.delta x valid.result-IsReduced moved.delta-IsReduced).0,
      )

  nothing : (kind : SetOperation) (all : Bool) → compute_out kind all (pos 0) (pos 0) ≡ pos 0
  unfolding compute_out ◌+ℤ◌ ◌-ℤ◌
  nothing union_op true = refl
  nothing union_op false = refl
  nothing intersect_op true = refl
  nothing intersect_op false = refl
  nothing except_op true = refl
  nothing except_op false = refl
  nothing other_op all = refl

  pub reset_set-IsSetValid : (v : SetView ops) → IsSetValid (reset_set ops v)
  unfolding reset_set get compute_out find
  reset_set-IsSetValid v = record {
    left-IsValid = ops.reset-IsValid v.left_view;
    right-IsValid = ops.reset-IsValid v.right_view;
    result-IsReduced = empty-IsReduced;
    delta-IsReduced = empty-IsReduced;
    get-result = λ x. sym (
        ap₂ (compute_out v.kind v.all_rows) (ops.result-reset v.left_view x)
          (ops.result-reset v.right_view x)
        ∙ nothing v.kind v.all_rows);
  }

  pub result-reset_set :
      (v : SetView ops) (x : R) → get (reset_set ops v).result x ≡ get {A = R} empty x
  unfolding reset_set
  result-reset_set v x = refl

  -- A set view answers as a view does, so that set operations nest.
  abbrev pub set_ops : ViewOps T R
  set_ops = record {
    View = SetView ops;
    apply_changes = apply_set_changes ops;
    get_result = λ v. v.result;
    get_delta = λ v. v.delta;
    reset = reset_set ops;
    IsValid = IsSetValid;
    apply_changes-IsValid = apply_set_changes-IsSetValid;
    result-IsReduced = λ v valid. valid.result-IsReduced;
    delta-IsReduced = λ v valid. valid.delta-IsReduced;
    result-apply_changes = set_result-apply_changes;
    reset-IsValid = reset_set-IsSetValid;
    result-reset = result-reset_set;
  }
