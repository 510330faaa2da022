-- ===== src/Views/JoinIndexes.antt =====
-- An index of JoinView and the rows that it stands for, and what a change of one side adds to the
-- joined rows.
use duck_dbsp.Prelude.{◌≡◌, refl, sym, ◌∙◌, [], ◌++◌, if◌then◌else◌, arith}
use duck_dbsp.Prelude.Int.{ℤ, pos, ◌+ℤ◌, int_laws}
use duck_dbsp.Prelude.Equality.{Eq, ◌==◌, pair_eq}
use duck_dbsp.Umap.Sums.{sum, UniqueKeys, empty-UniqueKeys}
use duck_dbsp.Zset.{ZSet, empty, plus}
use duck_dbsp.Zset.Total.{total, total-plus, total-empty}
use duck_dbsp.Zset.Linear.{total_congr, total_swap, total-add}
use duck_dbsp.Indexed.{IndexedZSet, at}
use duck_dbsp.Indexed.Sums.{total_of, total-at}
use duck_dbsp.Views.{Row}
use duck_dbsp.Views.JoinForms.{
  index_changes-total_of, integrate_changes-total_of, integrate_changes-UniqueKeys, join_left-total,
  join_right-total,
}
use duck_dbsp.Views.Joined.{index_changes, integrate_changes, join_left, join_right}

module _ {κ μ} {C : Type κ} {K : Type μ} ⦃er : Eq (Row C)⦄ ⦃ek : Eq K⦄ where
  -- An index over the rows of a Z-set under their keys.
  pub record Indexes (key : Row C → K) (ix : IndexedZSet K (Row C)) (z : ZSet (Row C))
      : Type (κ ⊔ μ) where
    pub keys-UniqueKeys : UniqueKeys ix
    pub rows : (h : K → Row C → ℤ) → total_of h ix ≡ total (λ x. h (key x) x) z

  pub empty-Indexes : (key : Row C → K) → Indexes key [] empty
  unfolding total_of sum
  empty-Indexes key = record {
    keys-UniqueKeys = empty-UniqueKeys K (ZSet (Row C));
    rows = λ h. sym (total-empty (λ x. h (key x) x));
  }

  pub integrate_changes-Indexes :
      (key : Row C → K) (changes : ZSet (Row C)) (ix : IndexedZSet K (Row C)) (z : ZSet (Row C))
      → Indexes key ix z
      → Indexes key (integrate_changes key changes ix) (plus z changes)
  integrate_changes-Indexes key changes ix z valid = record {
    keys-UniqueKeys = integrate_changes-UniqueKeys key changes ix valid.keys-UniqueKeys;
    rows = λ h. omega (
      int_laws,
      integrate_changes-total_of h key changes ix,
      valid.rows h,
      total-plus (λ x. h (key x) x) z changes,
    );
  }

  -- The rows under a key.
  total-at_key :
      (key : Row C → K) (ix : IndexedZSet K (Row C)) (z : ZSet (Row C)) (f : Row C → ℤ) (k : K)
      → Indexes key ix z
      → total f (at ix k) ≡ total (λ x. if key x == k then f x else pos 0) z
  total-at_key key ix z f k valid =
      total-at f ix k valid.keys-UniqueKeys ∙ valid.rows (λ j x. if j == k then f x else pos 0)

  module _ (lkey rkey : Row C → K) where
    -- The joined rows of two Z-sets as a linear form.
    abbrev pub joined : (Row C → ℤ) → ZSet (Row C) → ZSet (Row C) → ℤ
    joined g zl zr = total (λ l. total (λ r. if rkey r == lkey l then g (l ++ r) else pos 0) zr) zl

    pub joined-plus_left :
        (g : Row C → ℤ) (zl d zr : ZSet (Row C))
        → joined g (plus zl d) zr ≡ joined g zl zr +ℤ joined g d zr
    joined-plus_left g zl d zr =
        total-plus (λ l. total (λ r. if rkey r == lkey l then g (l ++ r) else pos 0) zr) zl d

    pub joined-plus_right :
        (g : Row C → ℤ) (zl zr d : ZSet (Row C))
        → joined g zl (plus zr d) ≡ joined g zl zr +ℤ joined g zl d
    joined-plus_right g zl zr d =
        let inner : Row C → ZSet (Row C) → ℤ =
          λ l z. total (λ r. if rkey r == lkey l then g (l ++ r) else pos 0) z in
        total_congr (λ l. inner l (plus zr d)) (λ l. inner l zr +ℤ inner l d) zl
          (λ l. total-plus (λ r. if rkey r == lkey l then g (l ++ r) else pos 0) zr d)
        ∙ total-add (λ l. inner l zr) (λ l. inner l d) zl

    pub left_change :
        (g : Row C → ℤ) (changes zr : ZSet (Row C)) (ix : IndexedZSet K (Row C))
        (s : ZSet (Row C) × ZSet (Row C))
        → Indexes rkey ix zr
        → total g (join_left (index_changes lkey changes []) ix s).1
          ≡ total g s.1 +ℤ joined g changes zr
    left_change g changes zr ix s valid =
        let h : K → Row C → ℤ = λ k l. total (λ r. g (l ++ r)) (at ix k) in
        let none_yet : total_of h [] ≡ pos 0 = unfold total_of sum in refl in
        omega (
          int_laws,
          join_left-total g ix (index_changes lkey changes []) s,
          index_changes-total_of h lkey changes [],
          none_yet,
          total_congr (λ l. h (lkey l) l)
              (λ l. total (λ r. if rkey r == lkey l then g (l ++ r) else pos 0) zr) changes
              (λ l. total-at_key rkey ix zr (λ r. g (l ++ r)) (lkey l) valid),
        )

    same_key :
        (l r : Row C) (n : ℤ)
        → (if lkey l == rkey r then n else pos 0) ≡ (if rkey r == lkey l then n else pos 0)
    same_key l r n = ground (arith, ek.equal_iff (lkey l) (rkey r), ek.equal_iff (rkey r) (lkey l))

    pub right_change :
        (g : Row C → ℤ) (changes zl : ZSet (Row C)) (ix : IndexedZSet K (Row C))
        (s : ZSet (Row C) × ZSet (Row C))
        → Indexes lkey ix zl
        → total g (join_right (index_changes rkey changes []) ix s).1
          ≡ total g s.1 +ℤ joined g zl changes
    right_change g changes zl ix s valid =
        let h : K → Row C → ℤ = λ k r. total (λ l. g (l ++ r)) (at ix k) in
        let pair : Row C → Row C → ℤ = λ l r. if rkey r == lkey l then g (l ++ r) else pos 0 in
        let none_yet : total_of h [] ≡ pos 0 = unfold total_of sum in refl in
        omega (
          int_laws,
          join_right-total g ix (index_changes rkey changes []) s,
          index_changes-total_of h rkey changes [],
          none_yet,
          total_congr (λ r. h (rkey r) r) (λ r. total (λ l. pair l r) zl) changes
              (λ r.
                total-at_key lkey ix zl (λ l. g (l ++ r)) (rkey r) valid
                ∙ total_congr (λ l. if lkey l == rkey r then g (l ++ r) else pos 0) (λ l. pair l r)
                    zl (λ l. same_key l r (g (l ++ r)))),
          total_swap pair zl changes,
        )
