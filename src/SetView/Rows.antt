-- ===== src/SetView/Rows.antt =====
-- The rows that a round of a set view goes through, and what it adds to the weight of each.
use duck_dbsp.Prelude.{
  ◌≡◌, refl, ap, sym, ◌∙◌, Bool, true, false, List, [], ◌∷◌, if◌then◌else◌, inl, inr, Bool-cases,
  arith, none,
}
use duck_dbsp.Prelude.Int.{ℤ, pos, ◌+ℤ◌, ◌-ℤ◌, ◌==ℤ◌, ==ℤ_iff, int_laws}
use duck_dbsp.Prelude.Equality.{Eq, ◌==◌}
use duck_dbsp.Flat.{find}
use duck_dbsp.Zset.{ZSet, get}
use duck_dbsp.Zset.Reduced.{IsReduced, insert-IsReduced}
use duck_dbsp.Zset.Weights.{get-insert}
use duck_dbsp.View.{ViewOps}
use duck_dbsp.SetView.{
  SetOperation, compute_out, member, insert_row, insert_rows, SetView, apply_op_delta, update_rows,
}

module _ {ℓ} {R : Type ℓ} ⦃er : Eq R⦄ where
  abbrev pub Unique : List R → Type 0
  Unique [] = Unit
  Unique (x ∷ xs) = (member x xs ≡ false) × Unique xs

  insert_row-Unique : (x : R) (rows : List R) → Unique rows → Unique (insert_row x rows)
  unfolding insert_row
  insert_row-Unique x rows u = elim (Bool-cases (member x rows)) [
    | inl e ↦ rw e u
    | inr e ↦ rw e (e, u)
  ]

  pub insert_rows-Unique : (z : ZSet R) (rows : List R) → Unique rows → Unique (insert_rows z rows)
  unfolding insert_rows
  insert_rows-Unique [] rows u = u
  insert_rows-Unique ((x, w) ∷ z) rows u =
      insert_rows-Unique z (insert_row x rows) (insert_row-Unique x rows u)

  member-insert_row :
      (x y : R) (rows : List R)
      → member y (insert_row x rows) ≡ false
      → (member y rows ≡ false) × ((x == y) ≡ false)
  unfolding insert_row member
  member-insert_row x y rows e = ground (arith, er.equal_iff x y)

  -- A row outside the set has no weight in the delta, and was not there before.
  pub member-insert_rows :
      (z : ZSet R) (rows : List R) (y : R)
      → member y (insert_rows z rows) ≡ false
      → (member y rows ≡ false) × (find y z ≡ none)
  unfolding insert_rows find
  member-insert_rows [] rows y e = (e, refl)
  member-insert_rows ((x, w) ∷ z) rows y e =
      let (before, rest) = member-insert_rows z (insert_row x rows) y e in
      let (old, ne) = member-insert_row x y rows before in (old, rw ne rest)

unmoved : (b : Bool) (d w : ℤ) → d ≡ pos 0 → w ≡ w +ℤ (if b then d else pos 0)
unmoved true d w e = omega int_laws
unmoved false d w e = omega int_laws

minus_zero : (w : ℤ) → w -ℤ pos 0 ≡ w
minus_zero w = omega int_laws

gains_add :
    (b₁ b₂ : Bool) (gx gy a b c : ℤ)
    → (b₁ ≡ true → (gx ≡ gy) × (b₂ ≡ false))
    → b ≡ a +ℤ (if b₁ then gx else pos 0)
    → c ≡ b +ℤ (if b₂ then gy else pos 0)
    → c ≡ a +ℤ (if if b₁ then true else b₂ then gy else pos 0)
gains_add false b₂ gx gy a b c h e₁ e₂ =
    let x = if b₂ then gy else pos 0 in omega (int_laws, e₁, e₂)
gains_add true true gx gy a b c h e₁ e₂ = let out = (h refl).1 in cc
gains_add true false gx gy a b c h e₁ e₂ = omega (int_laws, (h refl).0, e₁, e₂)

module _ {κ} {R : Type κ} ⦃er : Eq R⦄ where
  -- Both Z-sets of a pair are reduced, and have moved by the weights `m`.
  pub record Moved (m : R → ℤ) (s s' : ZSet R × ZSet R) : Type κ where
    pub result-IsReduced : IsReduced s'.0
    pub delta-IsReduced : IsReduced s'.1
    pub get-result : (y : R) → get s'.0 y ≡ get s.0 y +ℤ m y
    pub get-delta : (y : R) → get s'.1 y ≡ get s.1 y +ℤ m y

  combine_gain :
      (g : R → ℤ) (x y : R) (rows : List R) (a b c : ℤ)
      → member x rows ≡ false
      → b ≡ a +ℤ (if x == y then g x else pos 0)
      → c ≡ b +ℤ (if member y rows then g y else pos 0)
      → c ≡ a +ℤ (if member y (x ∷ rows) then g y else pos 0)
  unfolding member
  combine_gain g x y rows a b c out e₁ e₂ =
      gains_add (x == y) (member y rows) (g x) (g y) a b c
        (λ h.
          let same = (er.equal_iff x y).0 h in
          (ap g same, sym (ap (λ z. member z rows) same) ∙ out))
        e₁ e₂

module _ {ℓ κ} {T : Type ℓ} {R : Type κ} ⦃er : Eq R⦄ (ops : ViewOps T R) where
  open ops use {View, apply_changes, get_result, get_delta}

  apply_op_delta-Moved :
      (kind : SetOperation) (all : Bool) (x : R) (ol or nl nr : ℤ) (s : ZSet R × ZSet R)
      → IsReduced s.0
      → IsReduced s.1
      → Moved
          (λ y. if x == y then compute_out kind all nl nr -ℤ compute_out kind all ol or else pos 0)
          s
          (apply_op_delta ops kind all x ol or nl nr s)
  unfolding apply_op_delta
  apply_op_delta-Moved kind all x ol or nl nr (result, delta) r₁ r₂ =
      let d = compute_out kind all nl nr -ℤ compute_out kind all ol or in
      elim (Bool-cases (d ==ℤ pos 0)) [
        | inl e ↦ rw e record {
          result-IsReduced = r₁;
          delta-IsReduced = r₂;
          get-result = λ y. unmoved (x == y) d (get result y) ((==ℤ_iff d (pos 0)).0 e);
          get-delta = λ y. unmoved (x == y) d (get delta y) ((==ℤ_iff d (pos 0)).0 e);
        }
        | inr e ↦ rw e record {
          result-IsReduced = insert-IsReduced x d result r₁;
          delta-IsReduced = insert-IsReduced x d delta r₂;
          get-result = λ y. get-insert x d result y r₁;
          get-delta = λ y. get-insert x d delta y r₂;
        }
      ]

  -- What a round adds to the weight of a row.
  abbrev pub gain : SetView ops → View → View → R → ℤ
  gain v l r y =
      compute_out v.kind v.all_rows (get (get_result l) y) (get (get_result r) y)
      -ℤ compute_out v.kind v.all_rows (get (get_result l) y -ℤ get (get_delta l) y)
          (get (get_result r) y -ℤ get (get_delta r) y)

  pub update_rows-Moved :
      (v : SetView ops) (l r : View) (rows : List R) (s : ZSet R × ZSet R)
      → Unique rows
      → IsReduced s.0
      → IsReduced s.1
      → Moved (λ y. if member y rows then gain v l r y else pos 0) s (update_rows ops v l r rows s)
  unfolding update_rows member
  update_rows-Moved v l r [] s u r₁ r₂ = record {
    result-IsReduced = r₁;
    delta-IsReduced = r₂;
    get-result = λ y. omega int_laws;
    get-delta = λ y. omega int_laws;
  }
  update_rows-Moved v l r (x ∷ rows) s (out, u) r₁ r₂ =
      let nl = get (get_result l) x in
      let nr = get (get_result r) x in
      let ol = nl -ℤ get (get_delta l) x in
      let or = nr -ℤ get (get_delta r) x in
      let s' = apply_op_delta ops v.kind v.all_rows x ol or nl nr s in
      let first = apply_op_delta-Moved v.kind v.all_rows x ol or nl nr s r₁ r₂ in
      let rest = update_rows-Moved v l r rows s' u first.result-IsReduced first.delta-IsReduced in
      record {
        result-IsReduced = rest.result-IsReduced;
        delta-IsReduced = rest.delta-IsReduced;
        get-result = λ y.
            combine_gain (gain v l r) x y rows _ _ _ out (first.get-result y) (rest.get-result y);
        get-delta = λ y.
            combine_gain (gain v l r) x y rows _ _ _ out (first.get-delta y) (rest.get-delta y);
      }

  pub gain-outside :
      (v : SetView ops) (l r : View) (y : R)
      → find y (get_delta l) ≡ none
      → find y (get_delta r) ≡ none
      → gain v l r y ≡ pos 0
  unfolding get
  gain-outside v l r y el er' =
      rw (el, er', minus_zero (get (get_result l) y), minus_zero (get (get_result r) y))
        (omega int_laws)
