-- ===== src/Indexed/Sums.antt =====
-- An indexed Z-set as a linear form on keys and values.
use duck_dbsp.Prelude.{
  ◌≡◌, refl, [], ◌∷◌, true, arith, if◌then◌else◌, inl, inr, Bool-cases, Option-cases,
}
use duck_dbsp.Prelude.Int.{ℤ, pos, ◌+ℤ◌, ◌*ℤ◌, ◌==ℤ◌, ==ℤ_iff, int_laws, zero_mul}
use duck_dbsp.Prelude.Equality.{Eq, ◌==◌}
use duck_dbsp.Umap
use duck_dbsp.Umap.Sums.{
  sum, part, UniqueKeys, sum-update, sum-erase, sum-at, update-UniqueKeys, erase-UniqueKeys,
}
use duck_dbsp.Flat.Measures.{tally}
use duck_dbsp.Zset
use duck_dbsp.Zset.{ZSet, empty}
use duck_dbsp.Zset.Total.{total, total-insert, total-empty}
use duck_dbsp.Zset.Linear.{total_congr, total-zero}
use duck_dbsp.Indexed.{IndexedZSet, is_empty, at, drop_empty, insert, plus_values, plus, insert_all}

total-is_empty {ℓ} : {V : Type ℓ} (g : V → ℤ) (z : ZSet V) → is_empty z ≡ true → total g z ≡ pos 0
total-is_empty g [] e = total-empty g
total-is_empty g (x ∷ z) e = cc

module _ {ℓ κ} {K : Type ℓ} {V : Type κ} ⦃key : Eq K⦄ where
  abbrev pub under : (K → V → ℤ) → K → ZSet V → ℤ
  under g k z = total (g k) z

  -- The sum of `w * g k v` over all keys, values and weights.
  unfoldable pub total_of : (K → V → ℤ) → IndexedZSet K V → ℤ
  total_of g ix = sum (under g) ix

  pub part-at :
      (g : K → V → ℤ) (k : K) (ix : IndexedZSet K V)
      → part (under g) k (Umap.find k ix) ≡ total (g k) (at ix k)
  unfolding at
  part-at g k ix = elim (Option-cases (Umap.find k ix)) [
    | inl e ↦ rw e (omega (int_laws, total-empty (g k)))
    | inr (z, e) ↦ rw e refl
  ]

  pub total_of-drop_empty :
      (g : K → V → ℤ) (k : K) (ix : IndexedZSet K V) → total_of g (drop_empty k ix) ≡ total_of g ix
  unfolding total_of drop_empty
  total_of-drop_empty g k ix = elim (Bool-cases (is_empty (at ix k))) [
    | inl e ↦ rw e (
        omega
          (int_laws, sum-erase (under g) k ix, part-at g k ix, total-is_empty (g k) (at ix k) e))
    | inr e ↦ rw e refl
  ]

  pub drop_empty-UniqueKeys :
      (k : K) (ix : IndexedZSet K V) → UniqueKeys ix → UniqueKeys (drop_empty k ix)
  unfolding drop_empty
  drop_empty-UniqueKeys k ix u q = ground (arith, u q, erase-UniqueKeys k ix u q)

  -- What stands under a key, as a part of the whole sum.
  pub total-at :
      (g : V → ℤ) (ix : IndexedZSet K V) (k : K)
      → UniqueKeys ix
      → total g (at ix k) ≡ total_of (λ j v. if j == k then g v else pos 0) ix
  unfolding total_of
  total-at g ix k u =
      let g' : K → V → ℤ = λ j v. if j == k then g v else pos 0 in
      omega (
        int_laws,
        sum-at (under g') k ix (λ j z ne. rw ne (total-zero z)) u,
        part-at g' k ix,
        total_congr (g' k) g (at ix k) (λ v. rw ((key.equal_iff k k).1 refl)),
      )

module _ {ℓ κ} {K : Type ℓ} {V : Type κ} ⦃key : Eq K⦄ ⦃ev : Eq V⦄ where
  pub total_of-insert :
      (g : K → V → ℤ) (k : K) (v : V) (w : ℤ) (ix : IndexedZSet K V)
      → total_of g (insert k v w ix) ≡ total_of g ix +ℤ w *ℤ g k v
  unfolding insert
  total_of-insert g k v w ix = elim (Bool-cases (w ==ℤ pos 0)) [
    | inl e ↦ rw (e, (==ℤ_iff w (pos 0)).0 e) (omega (int_laws, zero_mul (g k v)))
    | inr e ↦ rw e (
        unfold total_of at in
        omega (
          int_laws,
          total_of-drop_empty g k (Umap.update empty k (Zset.insert v w) ix),
          sum-update (under g) empty k (Zset.insert v w) ix,
          part-at g k ix,
          total-insert (g k) v w (at ix k),
        ))
  ]

  pub insert-UniqueKeys :
      (k : K) (v : V) (w : ℤ) (ix : IndexedZSet K V) → UniqueKeys ix → UniqueKeys (insert k v w ix)
  unfolding insert
  insert-UniqueKeys k v w ix u = elim (Bool-cases (w ==ℤ pos 0)) [
    | inl e ↦ rw e u
    | inr e ↦ rw e (drop_empty-UniqueKeys k _ (update-UniqueKeys empty k (Zset.insert v w) ix u))
  ]

  pub total_of-insert_all :
      (g : K → V → ℤ) (key_fn : V → K) (z : ZSet V) (ix : IndexedZSet K V)
      → total_of g (insert_all key_fn z ix) ≡ total_of g ix +ℤ total (λ v. g (key_fn v) v) z
  unfolding insert_all total tally
  total_of-insert_all g key_fn [] ix = omega int_laws
  total_of-insert_all g key_fn ((v, w) ∷ z) ix = omega (
    int_laws,
    total_of-insert_all g key_fn z (insert (key_fn v) v w ix),
    total_of-insert g (key_fn v) v w ix,
  )

  pub insert_all-UniqueKeys :
      (key_fn : V → K) (z : ZSet V) (ix : IndexedZSet K V)
      → UniqueKeys ix
      → UniqueKeys (insert_all key_fn z ix)
  unfolding insert_all
  insert_all-UniqueKeys key_fn [] ix u = u
  insert_all-UniqueKeys key_fn ((v, w) ∷ z) ix u =
      insert_all-UniqueKeys key_fn z (insert (key_fn v) v w ix)
        (insert-UniqueKeys (key_fn v) v w ix u)

  total_of-plus_values :
      (g : K → V → ℤ) (k : K) (z : ZSet V) (ix : IndexedZSet K V)
      → total_of g (plus_values k z ix) ≡ total_of g ix +ℤ total (g k) z
  unfolding plus_values total tally
  total_of-plus_values g k [] ix = omega int_laws
  total_of-plus_values g k ((v, w) ∷ z) ix =
      omega (int_laws, total_of-plus_values g k z (insert k v w ix), total_of-insert g k v w ix)

  -- The sum of two indexed Z-sets is the sum of the two forms.
  pub total_of-plus :
      (g : K → V → ℤ) (ix other : IndexedZSet K V)
      → total_of g (plus ix other) ≡ total_of g ix +ℤ total_of g other
  unfolding plus total_of sum
  total_of-plus g ix [] = omega int_laws
  total_of-plus g ix ((k, z) ∷ other) =
      omega (int_laws, total_of-plus g (plus_values k z ix) other, total_of-plus_values g k z ix)
