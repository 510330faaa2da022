-- ===== src/DistinctOn/First.antt =====
-- What stands in the partitions: each row as often as the changes say, in the comparator's order.
use duck_dbsp.Prelude.{
  ℕ, zero, suc, ◌+◌, ◌-◌, ◌≡◌, refl, ap, sym, ◌∙◌, Bool, true, false, List, [], ◌∷◌, if◌then◌else◌,
  inl, inr, Bool-cases, arith,
}
use duck_dbsp.Prelude.Int.{ℤ, pos, negsuc, pos_part, ◌+ℤ◌}
use duck_dbsp.Prelude.Equality.{Eq, ◌==◌}
use duck_dbsp.DistinctOn.{insert_row, erase_row, insert_times, erase_times, update_rows}

-- A strict total order: what std::multiset asks of its comparator, and that it tells rows apart.
pub record IsTotalOrder {ℓ} {R : Type ℓ} (before : R → R → Bool) : Type ℓ where
  pub trans : (a b c : R) → before a b ≡ true → before b c ≡ true → before a c ≡ true
  pub irrefl : (a : R) → before a a ≡ false
  pub total : (a b : R) → before a b ≡ false → before b a ≡ false → a ≡ b

module _ {ℓ} {R : Type ℓ} (before : R → R → Bool) where
  -- No row of `ys` goes before `x`.
  abbrev pub NoneBefore : R → List R → Type 0
  NoneBefore x [] = Unit
  NoneBefore x (y ∷ ys) = (before y x ≡ false) × NoneBefore x ys

  abbrev pub IsSorted : List R → Type 0
  IsSorted [] = Unit
  IsSorted (x ∷ xs) = NoneBefore x xs × IsSorted xs

module _ {ℓ} {R : Type ℓ} ⦃er : Eq R⦄ where
  -- How often a row stands in a partition.
  unfoldable pub multiplicity : R → List R → ℕ
  multiplicity x [] = 0
  multiplicity x (y ∷ ys) = (if y == x then 1 else 0) + multiplicity x ys

  module _ (before : R → R → Bool) (order : IsTotalOrder before) where
    insert_row-multiplicity :
        (x y : R) (rows : List R)
        → multiplicity x (insert_row before y rows)
          ≡ (if y == x then 1 else 0) + multiplicity x rows
    unfolding insert_row multiplicity
    insert_row-multiplicity x y [] = refl
    insert_row-multiplicity x y (z ∷ rows) = ground (arith, insert_row-multiplicity x y rows)

    insert_row-NoneBefore :
        (x y : R) (rows : List R)
        → before y x ≡ false
        → NoneBefore before x rows
        → NoneBefore before x (insert_row before y rows)
    unfolding insert_row
    insert_row-NoneBefore x y [] e h = (e, h)
    insert_row-NoneBefore x y (z ∷ rows) e h = elim (Bool-cases (before y z)) [
      | inl b ↦ rw b (e, h)
      | inr b ↦ rw b (h.0, insert_row-NoneBefore x y rows e h.1)
    ]

    NoneBefore-past :
        (x y : R) (zs : List R)
        → before x y ≡ true
        → NoneBefore before y zs
        → NoneBefore before x zs
    NoneBefore-past x y [] e h = h
    NoneBefore-past x y (z ∷ zs) e h = (
      elim (Bool-cases (before z x)) [ inl b ↦ let past = order.trans z x y b e in cc | inr b ↦ b ],
      NoneBefore-past x y zs e h.1,
    )

    asym : (x y : R) → before x y ≡ true → before y x ≡ false
    asym x y e = elim (Bool-cases (before y x)) [
      | inl b ↦ let round = order.trans x y x e b in let never = order.irrefl x in cc
      | inr b ↦ b
    ]

    insert_row-IsSorted :
        (x : R) (rows : List R) → IsSorted before rows → IsSorted before (insert_row before x rows)
    unfolding insert_row
    insert_row-IsSorted x [] s = (tt, tt)
    insert_row-IsSorted x (y ∷ rows) s = elim (Bool-cases (before x y)) [
      | inl b ↦ rw b ((asym x y b, NoneBefore-past x y rows b s.0), s)
      | inr b ↦ rw b (insert_row-NoneBefore y x rows b s.0, insert_row-IsSorted x rows s.1)
    ]

    erase_row-NoneBefore :
        (x y : R) (rows : List R)
        → NoneBefore before x rows
        → NoneBefore before x (erase_row before y rows)
    unfolding erase_row
    erase_row-NoneBefore x y [] h = h
    erase_row-NoneBefore x y (z ∷ rows) h = elim (Bool-cases (before z y)) [
      | inl b ↦ rw b (h.0, erase_row-NoneBefore x y rows h.1)
      | inr b ↦ elim (Bool-cases (before y z)) [ inl c ↦ rw (b, c) h | inr c ↦ rw (b, c) h.1 ]
    ]

    erase_row-IsSorted :
        (x : R) (rows : List R) → IsSorted before rows → IsSorted before (erase_row before x rows)
    unfolding erase_row
    erase_row-IsSorted x [] s = s
    erase_row-IsSorted x (y ∷ rows) s = elim (Bool-cases (before y x)) [
      | inl b ↦ rw b (erase_row-NoneBefore y x rows s.0, erase_row-IsSorted x rows s.1)
      | inr b ↦ elim (Bool-cases (before x y)) [ inl c ↦ rw (b, c) s | inr c ↦ rw (b, c) s.1 ]
    ]

    -- A row that goes before all the others is not among them.
    pub none_there :
        (x y : R) (zs : List R) → before x y ≡ true → NoneBefore before y zs → multiplicity x zs ≡ 0
    unfolding multiplicity
    none_there x y [] e h = refl
    none_there x y (z ∷ zs) e h = elim (Bool-cases (z == x)) [
      | inl hit ↦
          let same : z ≡ x = (er.equal_iff z x).0 hit in
          let clash : true ≡ false = sym e ∙ ap (λ (a : R). before a y) (sym same) ∙ h.0 in cc
      | inr miss ↦ rw miss (omega (arith, none_there x y zs e h.1))
    ]

    gone_at :
        (x y : R) (rows : List R)
        → multiplicity y rows ≡ 0
        → multiplicity x rows ≡ multiplicity x rows - (if y == x then 1 else 0)
    gone_at x y rows e = elim (Bool-cases (y == x)) [
      | inl hit ↦
          let here = ap (λ (a : R). multiplicity a rows) ((er.equal_iff y x).0 hit) in
          rw hit (omega (arith, e, here))
      | inr miss ↦ rw miss (omega arith)
    ]

    distinct : (z y x : R) → before z y ≡ true → (z == x) ≡ true → (y == x) ≡ false
    distinct z y x b hit = elim (Bool-cases (y == x)) [
      | inl same ↦
          let one : z ≡ y = (er.equal_iff z x).0 hit ∙ sym ((er.equal_iff y x).0 same) in
          let never : before z z ≡ false = order.irrefl z in
          let clash : before z z ≡ true = ap (λ (a : R). before z a) one ∙ b in cc
      | inr e ↦ e
    ]

    erase_row-multiplicity :
        (x y : R) (rows : List R)
        → IsSorted before rows
        → multiplicity x (erase_row before y rows) ≡ multiplicity x rows - (if y == x then 1 else 0)
    unfolding erase_row multiplicity
    erase_row-multiplicity x y [] s = ground arith
    erase_row-multiplicity x y (z ∷ rows) s = elim (Bool-cases (before z y)) [
      | inl b ↦ rw b (ground (arith, erase_row-multiplicity x y rows s.1, distinct z y x b))
      | inr b ↦ elim (Bool-cases (before y z)) [
        | inl c ↦
            let gone = none_there y z (z ∷ rows) c (order.irrefl z, s.0) in
            rw (b, c) (gone_at x y (z ∷ rows) gone)
        | inr c ↦ rw (b, c, order.total z y b c) (ground arith)
      ]
    ]

    insert_times-multiplicity :
        (n : ℕ) (x y : R) (rows : List R)
        → multiplicity x (insert_times before n y rows)
          ≡ (if y == x then n else 0) + multiplicity x rows
    unfolding insert_times
    insert_times-multiplicity zero x y rows = ground arith
    insert_times-multiplicity (suc n) x y rows =
        let rest = insert_times-multiplicity n x y (insert_row before y rows) in
        let one = insert_row-multiplicity x y rows in ground (arith, rest, one)

    insert_times-IsSorted :
        (n : ℕ) (x : R) (rows : List R)
        → IsSorted before rows
        → IsSorted before (insert_times before n x rows)
    unfolding insert_times
    insert_times-IsSorted zero x rows s = s
    insert_times-IsSorted (suc n) x rows s =
        insert_times-IsSorted n x (insert_row before x rows) (insert_row-IsSorted x rows s)

    erase_times-multiplicity :
        (n : ℕ) (x y : R) (rows : List R)
        → IsSorted before rows
        → multiplicity x (erase_times before n y rows)
          ≡ multiplicity x rows - (if y == x then n else 0)
    unfolding erase_times
    erase_times-multiplicity zero x y rows s = ground arith
    erase_times-multiplicity (suc n) x y rows s =
        let rest =
          erase_times-multiplicity n x y (erase_row before y rows) (erase_row-IsSorted y rows s) in
        let one = erase_row-multiplicity x y rows s in ground (arith, rest, one)

    erase_times-IsSorted :
        (n : ℕ) (x : R) (rows : List R)
        → IsSorted before rows
        → IsSorted before (erase_times before n x rows)
    unfolding erase_times
    erase_times-IsSorted zero x rows s = s
    erase_times-IsSorted (suc n) x rows s =
        erase_times-IsSorted n x (erase_row before x rows) (erase_row-IsSorted x rows s)

    pub update_rows-multiplicity :
        (x y : R) (w : ℤ) (rows : List R)
        → IsSorted before rows
        → multiplicity x (update_rows before y w rows)
          ≡ (if y == x then pos_part (pos (multiplicity x rows) +ℤ w) else multiplicity x rows)
    unfolding update_rows erase_times ◌+ℤ◌
    update_rows-multiplicity x y (pos n) rows s =
        let long = insert_times-multiplicity n x y rows in ground (arith, long)
    update_rows-multiplicity x y (negsuc n) rows s =
        let short = erase_times-multiplicity (suc n) x y rows s in ground (arith, short)

    pub update_rows-IsSorted :
        (x : R) (w : ℤ) (rows : List R)
        → IsSorted before rows
        → IsSorted before (update_rows before x w rows)
    unfolding update_rows
    update_rows-IsSorted x (pos n) rows s = insert_times-IsSorted n x rows s
    update_rows-IsSorted x (negsuc n) rows s = erase_times-IsSorted (suc n) x rows s
