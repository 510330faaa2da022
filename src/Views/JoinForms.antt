-- ===== src/Views/JoinForms.antt =====
-- What the loops of JoinView add to the result and to the indexes.
use duck_dbsp.Prelude.{◌≡◌, [], ◌∷◌, ◌++◌, Option, none, some}
use duck_dbsp.Prelude.Int.{ℤ, pos, ◌+ℤ◌, ◌*ℤ◌, int_laws, mul_assoc, mul_add, mul-zero}
use duck_dbsp.Prelude.Equality.{Eq, pair_eq}
use duck_dbsp.Umap
use duck_dbsp.Umap.Sums.{sum, UniqueKeys, sum-update, update-UniqueKeys}
use duck_dbsp.Flat.Measures.{tally}
use duck_dbsp.Zset.{ZSet, empty, insert}
use duck_dbsp.Zset.Reduced.{IsReduced, insert-IsReduced}
use duck_dbsp.Zset.Total.{total, total-insert, total-empty}
use duck_dbsp.Zset.Linear.{total_congr, total-zero, total_swap}
use duck_dbsp.Indexed.{IndexedZSet, at, drop_empty}
use duck_dbsp.Indexed.Sums.{under, total_of, part-at, total_of-drop_empty, drop_empty-UniqueKeys}
use duck_dbsp.Views.{Row}
use duck_dbsp.Views.Joined.{
  add_join_result, join_row, join_rows, join_found, index_changes, integrate_changes, join_left,
  join_right,
}

module _ {κ} {C : Type κ} ⦃er : Eq (Row C)⦄ where
  abbrev rows_form : (Row C → ℤ) → ZSet (Row C) → ZSet (Row C) → ℤ
  rows_form g lefts rights = total (λ l. total (λ r. g (l ++ r)) rights) lefts

  module _ (g : Row C → ℤ) where
    join_row-total :
        (l : Row C) (w : ℤ) (rights : ZSet (Row C)) (s : ZSet (Row C) × ZSet (Row C))
        → total g (join_row l w rights s).1 ≡ total g s.1 +ℤ w *ℤ total (λ r. g (l ++ r)) rights
    unfolding join_row total tally add_join_result
    join_row-total l w [] s = omega (int_laws, mul-zero w)
    join_row-total l w ((r, v) ∷ rights) s = omega (
      int_laws,
      join_row-total l w rights (add_join_result l r (w *ℤ v) s),
      total-insert g (l ++ r) (w *ℤ v) s.1,
      mul_assoc w v (g (l ++ r)),
      mul_add w (v *ℤ g (l ++ r)) (total (λ r'. g (l ++ r')) rights),
    )

    join_rows-total :
        (lefts rights : ZSet (Row C)) (s : ZSet (Row C) × ZSet (Row C))
        → total g (join_rows lefts rights s).1 ≡ total g s.1 +ℤ rows_form g lefts rights
    unfolding join_rows total tally
    join_rows-total [] rights s = omega int_laws
    join_rows-total ((l, w) ∷ lefts) rights s =
        let after = join_row l w rights s in
        omega (int_laws, join_rows-total lefts rights after, join_row-total l w rights s)

  join_row-IsReduced :
      (l : Row C) (w : ℤ) (rights : ZSet (Row C)) (s : ZSet (Row C) × ZSet (Row C))
      → IsReduced s.1
      → IsReduced (join_row l w rights s).1
  unfolding join_row add_join_result
  join_row-IsReduced l w [] s r = r
  join_row-IsReduced l w ((x, v) ∷ rights) s r =
      join_row-IsReduced l w rights (add_join_result l x (w *ℤ v) s)
        (insert-IsReduced (l ++ x) (w *ℤ v) s.1 r)

  join_rows-IsReduced :
      (lefts rights : ZSet (Row C)) (s : ZSet (Row C) × ZSet (Row C))
      → IsReduced s.1
      → IsReduced (join_rows lefts rights s).1
  unfolding join_rows
  join_rows-IsReduced [] rights s r = r
  join_rows-IsReduced ((l, w) ∷ lefts) rights s r =
      join_rows-IsReduced lefts rights (join_row l w rights s) (join_row-IsReduced l w rights s r)

  left_found-total :
      (g : Row C → ℤ) (lefts : ZSet (Row C)) (o : Option (ZSet (Row C)))
      (s : ZSet (Row C) × ZSet (Row C))
      → total g (join_found (join_rows lefts) o s).1
        ≡ total g s.1 +ℤ rows_form g lefts (Umap.or_default empty o)
  unfolding join_found
  left_found-total g lefts (some rights) s = join_rows-total g lefts rights s
  left_found-total g lefts none s = omega (
    int_laws,
    total_congr (λ l. total (λ r. g (l ++ r)) empty) (λ _. pos 0) lefts
        (λ l. total-empty (λ r. g (l ++ r))),
    total-zero lefts,
  )

  right_found-total :
      (g : Row C → ℤ) (rights : ZSet (Row C)) (o : Option (ZSet (Row C)))
      (s : ZSet (Row C) × ZSet (Row C))
      → total g (join_found (λ lefts. join_rows lefts rights) o s).1
        ≡ total g s.1 +ℤ total (λ r. total (λ l. g (l ++ r)) (Umap.or_default empty o)) rights
  unfolding join_found
  right_found-total g rights (some lefts) s =
      omega
        (int_laws, join_rows-total g lefts rights s, total_swap (λ l r. g (l ++ r)) lefts rights)
  right_found-total g rights none s = omega (
    int_laws,
    total_congr (λ r. total (λ l. g (l ++ r)) empty) (λ _. pos 0) rights
        (λ r. total-empty (λ l. g (l ++ r))),
    total-zero rights,
  )

  join_found-IsReduced :
      (join : ZSet (Row C) → ZSet (Row C) × ZSet (Row C) → ZSet (Row C) × ZSet (Row C))
      (o : Option (ZSet (Row C))) (s : ZSet (Row C) × ZSet (Row C))
      → ((rows : ZSet (Row C)) → IsReduced (join rows s).1)
      → IsReduced s.1
      → IsReduced (join_found join o s).1
  unfolding join_found
  join_found-IsReduced join none s h r = r
  join_found-IsReduced join (some rows) s h r = h rows

module _ {κ μ} {C : Type κ} {K : Type μ} ⦃er : Eq (Row C)⦄ ⦃ek : Eq K⦄ where
  update-total_of :
      (h : K → Row C → ℤ) (k : K) (x : Row C) (w : ℤ) (ix : IndexedZSet K (Row C))
      → total_of h (Umap.update empty k (insert x w) ix) ≡ total_of h ix +ℤ w *ℤ h k x
  unfolding total_of at
  update-total_of h k x w ix = omega (
    int_laws,
    sum-update (under h) empty k (insert x w) ix,
    part-at h k ix,
    total-insert (h k) x w (at ix k),
  )

  pub index_changes-total_of :
      (h : K → Row C → ℤ) (key : Row C → K) (changes : ZSet (Row C)) (ix : IndexedZSet K (Row C))
      → total_of h (index_changes key changes ix)
        ≡ total_of h ix +ℤ total (λ x. h (key x) x) changes
  unfolding index_changes total tally
  index_changes-total_of h key [] ix = omega int_laws
  index_changes-total_of h key ((x, w) ∷ changes) ix = omega (
    int_laws,
    index_changes-total_of h key changes (Umap.update empty (key x) (insert x w) ix),
    update-total_of h (key x) x w ix,
  )

  pub integrate_changes-total_of :
      (h : K → Row C → ℤ) (key : Row C → K) (changes : ZSet (Row C)) (ix : IndexedZSet K (Row C))
      → total_of h (integrate_changes key changes ix)
        ≡ total_of h ix +ℤ total (λ x. h (key x) x) changes
  unfolding integrate_changes total tally
  integrate_changes-total_of h key [] ix = omega int_laws
  integrate_changes-total_of h key ((x, w) ∷ changes) ix =
      let wider = Umap.update empty (key x) (insert x w) ix in
      omega (
        int_laws,
        integrate_changes-total_of h key changes (drop_empty (key x) wider),
        total_of-drop_empty h (key x) wider,
        update-total_of h (key x) x w ix,
      )

  pub integrate_changes-UniqueKeys :
      (key : Row C → K) (changes : ZSet (Row C)) (ix : IndexedZSet K (Row C))
      → UniqueKeys ix
      → UniqueKeys (integrate_changes key changes ix)
  unfolding integrate_changes
  integrate_changes-UniqueKeys key [] ix u = u
  integrate_changes-UniqueKeys key ((x, w) ∷ changes) ix u =
      integrate_changes-UniqueKeys key changes _
        (drop_empty-UniqueKeys (key x) _ (update-UniqueKeys empty (key x) (insert x w) ix u))

  module _ (g : Row C → ℤ) (ix : IndexedZSet K (Row C)) where
    pub join_left-total :
        (d : IndexedZSet K (Row C)) (s : ZSet (Row C) × ZSet (Row C))
        → total g (join_left d ix s).1
          ≡ total g s.1 +ℤ total_of (λ k l. total (λ r. g (l ++ r)) (at ix k)) d
    unfolding join_left total_of sum at
    join_left-total [] s = omega int_laws
    join_left-total ((k, lefts) ∷ d) s =
        let after = join_found (join_rows lefts) (Umap.find k ix) s in
        omega (int_laws, join_left-total d after, left_found-total g lefts (Umap.find k ix) s)

    pub join_right-total :
        (d : IndexedZSet K (Row C)) (s : ZSet (Row C) × ZSet (Row C))
        → total g (join_right d ix s).1
          ≡ total g s.1 +ℤ total_of (λ k r. total (λ l. g (l ++ r)) (at ix k)) d
    unfolding join_right total_of sum at
    join_right-total [] s = omega int_laws
    join_right-total ((k, rights) ∷ d) s =
        let after = join_found (λ lefts. join_rows lefts rights) (Umap.find k ix) s in
        omega (int_laws, join_right-total d after, right_found-total g rights (Umap.find k ix) s)

  module _ (ix : IndexedZSet K (Row C)) where
    pub join_left-IsReduced :
        (d : IndexedZSet K (Row C)) (s : ZSet (Row C) × ZSet (Row C))
        → IsReduced s.1
        → IsReduced (join_left d ix s).1
    unfolding join_left
    join_left-IsReduced [] s r = r
    join_left-IsReduced ((k, lefts) ∷ d) s r = join_left-IsReduced d _ (
        join_found-IsReduced (join_rows lefts) (Umap.find k ix) s
          (λ rights. join_rows-IsReduced lefts rights s r) r)

    pub join_right-IsReduced :
        (d : IndexedZSet K (Row C)) (s : ZSet (Row C) × ZSet (Row C))
        → IsReduced s.1
        → IsReduced (join_right d ix s).1
    unfolding join_right
    join_right-IsReduced [] s r = r
    join_right-IsReduced ((k, rights) ∷ d) s r = join_right-IsReduced d _ (
        join_found-IsReduced (λ lefts. join_rows lefts rights) (Umap.find k ix) s
          (λ lefts. join_rows-IsReduced lefts rights s r) r)
