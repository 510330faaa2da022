-- ===== src/Umap/Sums.antt =====
-- Lookups in a map, and sums over its entries.
use duck_dbsp.Prelude.{
  ℕ, ◌+◌, ◌≤◌, ◌≡◌, refl, ap, ap₂, [], ◌∷◌, Option, none, some, false, arith, if◌then◌else◌, inl,
  inr, Bool-cases,
}
use duck_dbsp.Prelude.Int.{ℤ, pos, ◌+ℤ◌, int_laws}
use duck_dbsp.Prelude.Equality.{Eq, ◌==◌}
use duck_dbsp.Umap.{Umap, or_default, find, update, erase}

module _ {ℓ κ} {K : Type ℓ} {V : Type κ} where
  unfoldable pub sum : (K → V → ℤ) → Umap K V → ℤ
  sum h [] = pos 0
  sum h ((k, v) ∷ m) = h k v +ℤ sum h m

  abbrev pub part : (K → V → ℤ) → K → Option V → ℤ
  part h k none = pos 0
  part h k (some v) = h k v

module _ {ℓ κ} {K : Type ℓ} {V : Type κ} ⦃key : Eq K⦄ where
  unfoldable pub occurs : K → Umap K V → ℕ
  occurs k [] = 0
  occurs k ((j, v) ∷ m) = (if j == k then 1 else 0) + occurs k m

  abbrev pub UniqueKeys : Umap K V → Type ℓ
  UniqueKeys m = (k : K) → occurs k m ≤ 1

  pub find-eq-none : (k : K) (m : Umap K V) → occurs k m ≡ 0 → find k m ≡ none
  unfolding occurs find
  find-eq-none k [] h = refl
  find-eq-none k ((j, v) ∷ m) h = ground (arith, find-eq-none k m)

  pub find-update :
      (d : V) (k j : K) (f : V → V) (m : Umap K V)
      → find j (update d k f m) ≡ (if k == j then some (f (or_default d (find k m))) else find j m)
  unfolding find update
  find-update d k j f [] = ground (arith, key.equal_iff k k)
  find-update d k j f ((i, v) ∷ m) =
      ground (arith, key.equal_iff i k, key.equal_iff i j, key.equal_iff k j, find-update d k j f m)

  pub find-erase :
      (k j : K) (m : Umap K V)
      → UniqueKeys m
      → find j (erase k m) ≡ (if k == j then none else find j m)
  unfolding find erase occurs
  find-erase k j [] u = ground arith
  find-erase k j ((i, v) ∷ m) u = ground (
    arith,
    key.equal_iff i k,
    key.equal_iff i j,
    key.equal_iff k j,
    u k,
    find-eq-none k m,
    find-erase k j m (λ q. ground (arith, u q)),
  )

  occurs-update_ne :
      (d : V) (k : K) (f : V → V) (m : Umap K V) (q : K)
      → (k == q) ≡ false
      → occurs q (update d k f m) ≡ occurs q m
  unfolding update occurs
  occurs-update_ne d k f [] q ne = rw ne (omega arith)
  occurs-update_ne d k f ((j, v) ∷ m) q ne = ground (arith, occurs-update_ne d k f m q ne)

  occurs-erase-le : (k : K) (m : Umap K V) (q : K) → occurs q (erase k m) ≤ occurs q m
  unfolding erase occurs
  occurs-erase-le k [] q = omega arith
  occurs-erase-le k ((j, v) ∷ m) q = ground (arith, occurs-erase-le k m q)

  pub update-UniqueKeys :
      (d : V) (k : K) (f : V → V) (m : Umap K V) → UniqueKeys m → UniqueKeys (update d k f m)
  unfolding update occurs
  update-UniqueKeys d k f [] u q = ground arith
  update-UniqueKeys d k f ((j, v) ∷ m) u q = ground (
    arith,
    u q,
    key.equal_iff j k,
    key.equal_iff j q,
    key.equal_iff k q,
    occurs-update_ne d k f m q,
    update-UniqueKeys d k f m (λ i. ground (arith, u i)) q,
  )

  pub erase-UniqueKeys : (k : K) (m : Umap K V) → UniqueKeys m → UniqueKeys (erase k m)
  erase-UniqueKeys k m u q = omega (arith, u q, occurs-erase-le k m q)

  module _ (h : K → V → ℤ) where
    pub sum-update :
        (d : V) (k : K) (f : V → V) (m : Umap K V)
        → sum h (update d k f m) +ℤ part h k (find k m)
          ≡ sum h m +ℤ h k (f (or_default d (find k m)))
    unfolding sum update find
    sum-update d k f [] = omega int_laws
    sum-update d k f ((j, v) ∷ m) = elim (Bool-cases (j == k)) [
      | inl hit ↦
          let e : j ≡ k = (key.equal_iff j k).0 hit in
          rw hit (omega (int_laws, ap (λ (i : K). h i v) e, ap (λ (i : K). h i (f v)) e))
      | inr miss ↦ rw miss (omega (int_laws, sum-update d k f m))
    ]

    pub sum-erase : (k : K) (m : Umap K V) → sum h (erase k m) +ℤ part h k (find k m) ≡ sum h m
    unfolding sum erase find
    sum-erase k [] = omega int_laws
    sum-erase k ((j, v) ∷ m) = elim (Bool-cases (j == k)) [
      | inl hit ↦ rw hit (omega (int_laws, ap (λ (i : K). h i v) ((key.equal_iff j k).0 hit)))
      | inr miss ↦ rw miss (omega (int_laws, sum-erase k m))
    ]

    -- A sum that only the entry of `k` adds to is that entry's part.
    pub sum-at :
        (k : K) (m : Umap K V)
        → ((j : K) (v : V) → (j == k) ≡ false → h j v ≡ pos 0)
        → UniqueKeys m
        → sum h m ≡ part h k (find k m)
    unfolding sum find occurs
    sum-at k [] off u = refl
    sum-at k ((j, v) ∷ m) off u = elim (Bool-cases (j == k)) [
      | inl hit ↦ rw hit (
          omega (
            int_laws,
            ap (λ (i : K). h i v) ((key.equal_iff j k).0 hit),
            ap (part h k) (find-eq-none k m (ground (arith, u k))),
            sum-at k m off (λ q. ground (arith, u q)),
          ))
      | inr miss ↦
          rw miss (omega (int_laws, off j v miss, sum-at k m off (λ q. ground (arith, u q))))
    ]

module _ {ℓ κ} {K : Type ℓ} {V : Type κ} ⦃key : Eq K⦄ where
  -- A sum reads no more than the map's entries.
  pub sum_congr :
      (h h' : K → V → ℤ) (m : Umap K V)
      → UniqueKeys m
      → ((k : K) (v : V) → find k m ≡ some v → h k v ≡ h' k v)
      → sum h m ≡ sum h' m
  unfolding sum find occurs
  sum_congr h h' [] u e = refl
  sum_congr h h' ((j, v) ∷ m) u e =
      ap₂ (λ a b. a +ℤ b) (e j v (rw ((key.equal_iff j j).1 refl) refl))
        (sum_congr h h' m (λ q. ground (arith, u q))
          (λ k w found. e k w (ground (arith, u k, find-eq-none k m, found))))

pub empty-UniqueKeys {ℓ κ} : (K : Type ℓ) (V : Type κ) ⦃key : Eq K⦄ → UniqueKeys {K = K} {V = V} []
unfolding occurs
empty-UniqueKeys K V k = omega arith
