-- ===== src/DistinctOn/Result.antt =====
-- The result is one first row for each partition, and the delta is what it has changed by.
use duck_dbsp.Prelude.{
  Bool, ◌≡◌, refl, ap, true, List, [], ◌∷◌, if◌then◌else◌, inl, inr, Bool-cases, Option, none, some,
}
use duck_dbsp.Prelude.Int.{ℤ, pos, negsuc, ◌+ℤ◌, int_laws}
use duck_dbsp.Prelude.Equality.{Eq}
use duck_dbsp.Umap
use duck_dbsp.Umap.{Umap}
use duck_dbsp.Umap.Sums.{
  sum, part, UniqueKeys, sum-update, sum-erase, find-update, update-UniqueKeys, erase-UniqueKeys,
}
use duck_dbsp.Zset.{ZSet}
use duck_dbsp.Zset.Reduced.{IsReduced, insert-IsReduced}
use duck_dbsp.Zset.Total.{total, total-insert-one}
use duck_dbsp.DistinctOn.{
  first, is_empty, insert_first, same_first, propagate, partition_round, partition_rounds,
  first_rows, update_rows,
}

module _ {ℓ} {R : Type ℓ} ⦃er : Eq R⦄ where
  -- What the first row of a partition counts for.
  abbrev pub first_value : (R → ℤ) → Option R → ℤ
  first_value g none = pos 0
  first_value g (some x) = g x

  empty_first :
      (g : R → ℤ) (rows : List R) → is_empty rows ≡ true → first_value g (first rows) ≡ pos 0
  empty_first g [] e = refl
  empty_first g (x ∷ xs) e = cc

  insert_first-total :
      (g : R → ℤ) (o : Option R) (z : ZSet R)
      → (total g (insert_first o (pos 1) z) ≡ total g z +ℤ first_value g o)
        × (total g (insert_first o (negsuc 0) z) +ℤ first_value g o ≡ total g z)
  insert_first-total g none z = (omega int_laws, omega int_laws)
  insert_first-total g (some x) z = total-insert-one g x z

  insert_first-IsReduced :
      (o : Option R) (w : ℤ) (z : ZSet R) → IsReduced z → IsReduced (insert_first o w z)
  insert_first-IsReduced none w z r = r
  insert_first-IsReduced (some x) w z r = insert-IsReduced x w z r

  same_first-equal : (a b : Option R) → same_first a b ≡ true → a ≡ b
  same_first-equal none none e = refl
  same_first-equal none (some y) e = cc
  same_first-equal (some x) none e = cc
  same_first-equal (some x) (some y) e = ap some ((er.equal_iff x y).0 e)

  propagate-total :
      (g : R → ℤ) (old new : Option R) (delta : ZSet R)
      → total g (propagate old new delta) +ℤ first_value g old ≡ total g delta +ℤ first_value g new
  unfolding propagate
  propagate-total g old new delta = elim (Bool-cases (same_first old new)) [
    | inl e ↦ rw (e, same_first-equal old new e) refl
    | inr e ↦ rw e (
        omega (
          int_laws,
          insert_first-total g new (insert_first old (negsuc 0) delta),
          insert_first-total g old delta,
        ))
  ]

  propagate-IsReduced :
      (old new : Option R) (delta : ZSet R) → IsReduced delta → IsReduced (propagate old new delta)
  unfolding propagate
  propagate-IsReduced old new delta r = elim (Bool-cases (same_first old new)) [
    | inl e ↦ rw e r
    | inr e ↦ rw e (
        insert_first-IsReduced new (pos 1) (insert_first old (negsuc 0) delta)
          (insert_first-IsReduced old (negsuc 0) delta r))
  ]

  module _ {κ} {K : Type κ} where
    pub first_rows-IsReduced :
        (m : Umap K (List R)) (z : ZSet R) → IsReduced z → IsReduced (first_rows m z)
    unfolding first_rows
    first_rows-IsReduced [] z r = r
    first_rows-IsReduced ((k, rows) ∷ m) z r =
        first_rows-IsReduced m (insert_first (first rows) (pos 1) z)
          (insert_first-IsReduced (first rows) (pos 1) z r)

    pub first_rows-total :
        (g : R → ℤ) (m : Umap K (List R)) (z : ZSet R)
        → total g (first_rows m z) ≡ total g z +ℤ sum (λ k rows. first_value g (first rows)) m
    unfolding first_rows sum
    first_rows-total g [] z = omega int_laws
    first_rows-total g ((k, rows) ∷ m) z = omega (
      int_laws,
      first_rows-total g m (insert_first (first rows) (pos 1) z),
      insert_first-total g (first rows) z,
    )

module _ {ℓ κ} {R : Type ℓ} {K : Type κ} ⦃er : Eq R⦄ ⦃ek : Eq K⦄ where
  -- What the partitions count for: their first rows.
  abbrev pub firsts : (R → ℤ) → Umap K (List R) → ℤ
  firsts g m = sum (λ k rows. first_value g (first rows)) m

  old_part :
      (g : R → ℤ) (k : K) (o : Option (List R))
      → part (λ k rows. first_value g (first rows)) k o
        ≡ first_value g (first (Umap.or_default [] o))
  old_part g k none = refl
  old_part g k (some rows) = refl

  -- The partitions after a round: `new` in place of `old`.
  module _ (k : K) (new : List R) (m : Umap K (List R)) where
    abbrev pub written : Umap K (List R)
    written = Umap.update [] k (λ _. new) m

    abbrev pub kept : Umap K (List R)
    kept = if is_empty new then Umap.erase k written else written

    module _ (unique : UniqueKeys m) where
      pub written-UniqueKeys : UniqueKeys written
      written-UniqueKeys = update-UniqueKeys [] k (λ _. new) m unique

      find-written : Umap.find k written ≡ some new
      find-written = rw ((ek.equal_iff k k).1 refl) at (find-update [] k k (λ _. new) m)

      pub kept-UniqueKeys : UniqueKeys kept
      kept-UniqueKeys = elim (Bool-cases (is_empty new)) [
        | inl e ↦ rw e (erase-UniqueKeys k written written-UniqueKeys)
        | inr e ↦ rw e written-UniqueKeys
      ]

      kept-firsts :
          (g : R → ℤ)
          → firsts g kept +ℤ first_value g (first (Umap.or_default [] (Umap.find k m)))
            ≡ firsts g m +ℤ first_value g (first new)
      kept-firsts g =
          let h : K → List R → ℤ = λ k rows. first_value g (first rows) in
          let step = sum-update h [] k (λ _. new) m in
          let old = old_part g k (Umap.find k m) in
          elim (Bool-cases (is_empty new)) [
            | inl e ↦ rw e (
                omega (
                  int_laws,
                  step,
                  old,
                  sum-erase h k written,
                  ap (part h k) find-written,
                  empty_first g new e,
                ))
            | inr e ↦ rw e (omega (int_laws, step, old))
          ]

  -- Unique partitions, and a delta that has changed as their first rows have.
  pub record Moved (m m' : Umap K (List R)) (delta delta' : ZSet R) : Type (ℓ ⊔ κ) where
    pub unique : UniqueKeys m'
    pub reduced : IsReduced delta'
    pub change : (g : R → ℤ) → total g delta' +ℤ firsts g m ≡ total g delta +ℤ firsts g m'

module _ {ℓ κ} {R : Type ℓ} {K : Type κ} ⦃er : Eq R⦄ ⦃ek : Eq K⦄ (before : R → R → Bool)
    (key_of : R → K) where
  partition_round-Moved :
      (row : R) (weight : ℤ) (m : Umap K (List R)) (delta : ZSet R)
      → UniqueKeys m
      → IsReduced delta
      → Moved m
          (partition_round before key_of row weight (m, delta)).0
          delta
          (partition_round before key_of row weight (m, delta)).1
  unfolding partition_round
  partition_round-Moved row weight m delta unique reduced =
      let k = key_of row in
      let old = Umap.or_default [] (Umap.find k m) in
      let new = update_rows before row weight old in
      record {
        unique = kept-UniqueKeys k new m unique;
        reduced = propagate-IsReduced (first old) (first new) delta reduced;
        change = λ g. omega (
          int_laws,
          kept-firsts k new m unique g,
          propagate-total g (first old) (first new) delta,
        );
      }

  pub partition_rounds-Moved :
      (changes : ZSet R) (m : Umap K (List R)) (delta : ZSet R)
      → UniqueKeys m
      → IsReduced delta
      → Moved m
          (partition_rounds before key_of changes (m, delta)).0
          delta
          (partition_rounds before key_of changes (m, delta)).1
  unfolding partition_rounds
  partition_rounds-Moved [] m delta unique reduced = record {
    unique = unique;
    reduced = reduced;
    change = λ g. refl;
  }
  partition_rounds-Moved ((row, weight) ∷ changes) m delta unique reduced =
      let round = partition_round-Moved row weight m delta unique reduced in
      let (m', delta') = partition_round before key_of row weight (m, delta) in
      let rest = partition_rounds-Moved changes m' delta' round.unique round.reduced in
      record {
        unique = rest.unique;
        reduced = rest.reduced;
        change = λ g. omega (int_laws, round.change g, rest.change g);
      }
