-- ===== src/Flat/Measures.antt =====
-- Sums over the slots of a weight map, of an integer or of a number for each slot. They do not
-- depend on the order, so the slot that `erase` moves does not show in them.
use duck_dbsp.Prelude.{
  ℕ, ◌+◌, ◌≡◌, refl, [], ◌∷◌, Option, none, some, true, arith, if◌then◌else◌, inl, inr, Bool-cases,
  ap,
}
use duck_dbsp.Prelude.Int.{ℤ, pos, ◌+ℤ◌, int_laws, ◌==ℤ◌}
use duck_dbsp.Prelude.Equality.{Eq, ◌==◌}
use duck_dbsp.Flat.{
  FlatWeightMap, found, last_slot, pop_back, fill_hole, find, slot_for, write, erase,
}

module _ {ℓ} {A : Type ℓ} where
  unfoldable pub tally : (A × ℤ → ℤ) → FlatWeightMap A → ℤ
  tally h [] = pos 0
  tally h (e ∷ es) = h e +ℤ tally h es

  unfoldable pub census : (A × ℤ → ℕ) → FlatWeightMap A → ℕ
  census h [] = 0
  census h (e ∷ es) = h e + census h es

  tally-pop_back :
      (h : A × ℤ → ℤ) (e : A × ℤ) (es : FlatWeightMap A)
      → h (last_slot e es) +ℤ tally h (pop_back e es) ≡ h e +ℤ tally h es
  unfolding tally last_slot pop_back
  tally-pop_back h e [] = refl
  tally-pop_back h e (x ∷ es) = omega (int_laws, tally-pop_back h x es)

  pub tally-fill_hole : (h : A × ℤ → ℤ) (es : FlatWeightMap A) → tally h (fill_hole es) ≡ tally h es
  unfolding tally fill_hole
  tally-fill_hole h [] = refl
  tally-fill_hole h (x ∷ es) = tally-pop_back h x es

  census-pop_back :
      (h : A × ℤ → ℕ) (e : A × ℤ) (es : FlatWeightMap A)
      → h (last_slot e es) + census h (pop_back e es) ≡ h e + census h es
  unfolding census last_slot pop_back
  census-pop_back h e [] = refl
  census-pop_back h e (x ∷ es) = omega (arith, census-pop_back h x es)

  pub census-fill_hole :
      (h : A × ℤ → ℕ) (es : FlatWeightMap A) → census h (fill_hole es) ≡ census h es
  unfolding census fill_hole
  census-fill_hole h [] = refl
  census-fill_hole h (x ∷ es) = census-pop_back h x es

module _ {ℓ} {A : Type ℓ} ⦃key : Eq A⦄ where
  -- What a slot adds to the count of the slots of `k`.
  abbrev pub is_at : A → A × ℤ → ℕ
  is_at k e = if e.0 == k then 1 else 0

  abbrev pub is_zero : A × ℤ → ℕ
  is_zero e = if e.1 ==ℤ pos 0 then 1 else 0

  unfoldable pub occurs : A → FlatWeightMap A → ℕ
  occurs k es = census (is_at k) es

  unfoldable pub zeros : FlatWeightMap A → ℕ
  zeros es = census is_zero es

  pub find-eq-none : (k : A) (es : FlatWeightMap A) → occurs k es ≡ 0 → find k es ≡ none
  unfolding occurs census find
  find-eq-none k [] h = refl
  find-eq-none k ((j, w) ∷ es) h = ground (arith, find-eq-none k es)

  pub occurs-eq-zero : (k : A) (es : FlatWeightMap A) → find k es ≡ none → occurs k es ≡ 0
  unfolding occurs census find
  occurs-eq-zero k [] h = refl
  occurs-eq-zero k ((j, w) ∷ es) h = ground (arith, occurs-eq-zero k es)

  -- What the slot of `k` adds to a sum, if there is one.
  abbrev pub part : (A × ℤ → ℤ) → A → Option ℤ → ℤ
  part h k none = pos 0
  part h k (some w) = h (k, w)

  abbrev pub part_ℕ : (A × ℤ → ℕ) → A → Option ℤ → ℕ
  part_ℕ h k none = 0
  part_ℕ h k (some w) = h (k, w)

  pub find-slot_for :
      (k : A) (es : FlatWeightMap A) → find k (slot_for k es) ≡ some (found (find k es))
  unfolding find slot_for
  find-slot_for k [] = ground (arith, key.equal_iff k k)
  find-slot_for k ((j, w) ∷ es) = ground (arith, find-slot_for k es)

  pub find-write :
      (k : A) (f : ℤ → ℤ) (es : FlatWeightMap A) (v : ℤ)
      → find k es ≡ some v
      → find k (write k f es) ≡ some (f v)
  unfolding find write
  find-write k f [] v h = ground arith
  find-write k f ((j, w) ∷ es) v h = ground (arith, find-write k f es v)

  pub slot_eq {κ} :
      {B : Type κ} (h : A × ℤ → B) (j k : A) (w : ℤ) → (j == k) ≡ true → h (j, w) ≡ h (k, w)
  slot_eq h j k w hit = ap (λ (a : A). h (a, w)) ((key.equal_iff j k).0 hit)

  pub tally-slot_for :
      (h : A × ℤ → ℤ) (k : A) (es : FlatWeightMap A)
      → tally h (slot_for k es) +ℤ part h k (find k es) ≡ tally h es +ℤ h (k, found (find k es))
  unfolding tally find slot_for
  tally-slot_for h k [] = omega int_laws
  tally-slot_for h k ((j, w) ∷ es) = elim (Bool-cases (j == k)) [
    | inl hit ↦ rw hit (omega (int_laws, slot_eq h j k w hit))
    | inr miss ↦ rw miss (omega (int_laws, tally-slot_for h k es))
  ]

  pub tally-write :
      (h : A × ℤ → ℤ) (k : A) (f : ℤ → ℤ) (es : FlatWeightMap A) (v : ℤ)
      → find k es ≡ some v
      → tally h (write k f es) +ℤ h (k, v) ≡ tally h es +ℤ h (k, f v)
  unfolding tally find write
  tally-write h k f [] v e = ground arith
  tally-write h k f ((j, w) ∷ es) v e = elim (Bool-cases (j == k)) [
    | inl hit ↦
        let p : w ≡ v = ap found (rw hit at e) in
        rw (hit, ← p) (omega (int_laws, slot_eq h j k w hit, slot_eq h j k (f w) hit))
    | inr miss ↦ rw miss (omega (int_laws, tally-write h k f es v (rw miss at e)))
  ]

  pub tally-erase :
      (h : A × ℤ → ℤ) (k : A) (es : FlatWeightMap A) (v : ℤ)
      → find k es ≡ some v
      → tally h (erase k es) +ℤ h (k, v) ≡ tally h es
  unfolding tally find erase
  tally-erase h k [] v e = ground arith
  tally-erase h k ((j, w) ∷ es) v e = elim (Bool-cases (j == k)) [
    | inl hit ↦
        let p : w ≡ v = ap found (rw hit at e) in
        rw (hit, ← p) (omega (int_laws, slot_eq h j k w hit, tally-fill_hole h es))
    | inr miss ↦ rw miss (omega (int_laws, tally-erase h k es v (rw miss at e)))
  ]

  pub census-slot_for :
      (h : A × ℤ → ℕ) (k : A) (es : FlatWeightMap A)
      → census h (slot_for k es) + part_ℕ h k (find k es) ≡ census h es + h (k, found (find k es))
  unfolding census find slot_for
  census-slot_for h k [] = omega arith
  census-slot_for h k ((j, w) ∷ es) = elim (Bool-cases (j == k)) [
    | inl hit ↦ rw hit (omega (arith, slot_eq h j k w hit))
    | inr miss ↦ rw miss (omega (arith, census-slot_for h k es))
  ]

  pub census-write :
      (h : A × ℤ → ℕ) (k : A) (f : ℤ → ℤ) (es : FlatWeightMap A) (v : ℤ)
      → find k es ≡ some v
      → census h (write k f es) + h (k, v) ≡ census h es + h (k, f v)
  unfolding census find write
  census-write h k f [] v e = ground arith
  census-write h k f ((j, w) ∷ es) v e = elim (Bool-cases (j == k)) [
    | inl hit ↦
        let p : w ≡ v = ap found (rw hit at e) in
        rw (hit, ← p) (omega (arith, slot_eq h j k w hit, slot_eq h j k (f w) hit))
    | inr miss ↦ rw miss (omega (arith, census-write h k f es v (rw miss at e)))
  ]

  pub census-erase :
      (h : A × ℤ → ℕ) (k : A) (es : FlatWeightMap A) (v : ℤ)
      → find k es ≡ some v
      → census h (erase k es) + h (k, v) ≡ census h es
  unfolding census find erase
  census-erase h k [] v e = ground arith
  census-erase h k ((j, w) ∷ es) v e = elim (Bool-cases (j == k)) [
    | inl hit ↦
        let p : w ≡ v = ap found (rw hit at e) in
        rw (hit, ← p) (omega (arith, slot_eq h j k w hit, census-fill_hole h es))
    | inr miss ↦ rw miss (omega (arith, census-erase h k es v (rw miss at e)))
  ]
