-- ===== src/DistinctOn/Partitions.antt =====
-- The partitions after changes: each holds the rows of its key, as often as they have been put there.
use duck_dbsp.Prelude.{
  ℕ, ◌+◌, ◌≤◌, ◌≡◌, refl, ap, Bool, true, List, [], ◌∷◌, if◌then◌else◌, inl, inr, Bool-cases, arith,
}
use duck_dbsp.Prelude.Int.{ℤ, pos, pos_part, ◌+ℤ◌}
use duck_dbsp.Prelude.Equality.{Eq, ◌==◌}
use duck_dbsp.Umap
use duck_dbsp.Umap.{Umap}
use duck_dbsp.Umap.Sums.{UniqueKeys, find-update, find-erase}
use duck_dbsp.Flat
use duck_dbsp.Flat.Measures.{census, occurs, find-eq-none}
use duck_dbsp.Zset.{ZSet, get}
use duck_dbsp.DistinctOn.{is_empty, update_rows, partition_round, partition_rounds}
use duck_dbsp.DistinctOn.Result.{written, kept, written-UniqueKeys, kept-UniqueKeys}
use duck_dbsp.DistinctOn.First.{
  IsTotalOrder, IsSorted, multiplicity, update_rows-multiplicity, update_rows-IsSorted,
}

module _ {ℓ κ} {R : Type ℓ} {K : Type κ} ⦃ek : Eq K⦄ where
  abbrev pub rows_of : Umap K (List R) → K → List R
  rows_of m k = Umap.or_default [] (Umap.find k m)

module _ {ℓ} {R : Type ℓ} where
  empty_eq : (rows : List R) → is_empty rows ≡ true → rows ≡ []
  empty_eq [] e = refl
  empty_eq (x ∷ xs) e = cc

module _ {ℓ κ} {R : Type ℓ} {K : Type κ} ⦃er : Eq R⦄ ⦃ek : Eq K⦄ where
  rows_of-kept :
      (k : K) (new : List R) (m : Umap K (List R)) (j : K)
      → UniqueKeys m
      → rows_of (kept k new m) j ≡ (if k == j then new else rows_of m j)
  rows_of-kept k new m j unique =
      let put = find-update [] k j (λ _. new) m in
      let gone = find-erase k j (written k new m) (written-UniqueKeys k new m unique) in
      elim (Bool-cases (is_empty new)) [
        | inl e ↦ rw (e, gone, put, empty_eq new e) (ground arith)
        | inr e ↦ rw (e, put) (ground arith)
      ]

module _ {ℓ κ} {R : Type ℓ} {K : Type κ} ⦃er : Eq R⦄ ⦃ek : Eq K⦄ (before : R → R → Bool)
    (key_of : R → K) where
  -- The partition of a row's key has it as often as `counts` says, the other partitions do not have it,
  -- and all are in the comparator's order.
  pub record HoldsRows (counts : R → ℕ) (m : Umap K (List R)) : Type (ℓ ⊔ κ) where
    pub unique : UniqueKeys m
    pub sorted : (k : K) → IsSorted before (rows_of m k)
    pub counted :
        (x : R) (k : K) → multiplicity x (rows_of m k) ≡ (if key_of x == k then counts x else 0)

  HoldsRows-congr :
      (counts counts' : R → ℕ) (m : Umap K (List R))
      → ((x : R) → counts x ≡ counts' x)
      → HoldsRows counts m
      → HoldsRows counts' m
  HoldsRows-congr counts counts' m e h = record {
    unique = h.unique;
    sorted = h.sorted;
    counted = λ x k. rw (← e x) (h.counted x k);
  }

  -- How often a row is there once its weight has changed: not less than never.
  abbrev pub changed_count : R → ℤ → (R → ℕ) → R → ℕ
  changed_count row w counts x = if row == x then pos_part (pos (counts x) +ℤ w) else counts x

  module _ (order : IsTotalOrder before) where
    partition_round-HoldsRows :
        (row : R) (w : ℤ) (counts : R → ℕ) (m : Umap K (List R)) (delta : ZSet R)
        → HoldsRows counts m
        → HoldsRows (changed_count row w counts) (partition_round before key_of row w (m, delta)).0
    unfolding partition_round
    partition_round-HoldsRows row w counts m delta h =
        let k = key_of row in
        let old = rows_of m k in
        let new = update_rows before row w old in
        let same_key : (x : R) → (row == x) ≡ true → k ≡ key_of x =
          λ x e. ap key_of ((er.equal_iff row x).0 e) in
        let get : (j : K) → rows_of (kept k new m) j ≡ (if k == j then new else rows_of m j) =
          λ j. rows_of-kept k new m j h.unique in
        record {
          unique = kept-UniqueKeys k new m h.unique;
          sorted = λ j. rw (get j) (elim (Bool-cases (k == j)) [
            | inl e ↦ rw e (update_rows-IsSorted before order row w old (h.sorted k))
            | inr e ↦ rw e (h.sorted j)
          ]);
          counted = λ x j. rw (get j) (
              ground (
                arith,
                update_rows-multiplicity before order x row w old (h.sorted k),
                h.counted x k,
                h.counted x j,
                ek.equal_iff k j,
                ek.equal_iff (key_of x) j,
                ek.equal_iff (key_of x) k,
                same_key x,
              ));
        }

    once_more :
        (row x : R) (w : ℤ) (changes : ZSet R)
        → occurs x ((row, w) ∷ changes) ≡ (if row == x then 1 else 0) + occurs x changes
    unfolding occurs census
    once_more row x w changes = refl

    -- A row that has been met is not met again.
    count-cons :
        (row x : R) (w : ℤ) (changes : ZSet R) (counts : R → ℕ)
        → occurs x ((row, w) ∷ changes) ≤ 1
        → pos_part (pos (changed_count row w counts x) +ℤ get changes x)
          ≡ pos_part (pos (counts x) +ℤ get ((row, w) ∷ changes) x)
    unfolding get Flat.find ◌+ℤ◌
    count-cons row x w changes counts once = elim (Bool-cases (row == x)) [
      | inl hit ↦
          let none_left : occurs x changes ≡ 0 = ground (arith, once_more row x w changes) in
          rw (hit, find-eq-none x changes none_left) (ground arith)
      | inr miss ↦ rw miss refl
    ]

    pub partition_rounds-HoldsRows :
        (changes : ZSet R) (counts : R → ℕ) (m : Umap K (List R)) (delta : ZSet R)
        → ((x : R) → occurs x changes ≤ 1)
        → HoldsRows counts m
        → HoldsRows
            (λ x. pos_part (pos (counts x) +ℤ get changes x))
            (partition_rounds before key_of changes (m, delta)).0
    unfolding partition_rounds get Flat.find ◌+ℤ◌
    partition_rounds-HoldsRows [] counts m delta once h =
        HoldsRows-congr counts (λ x. pos_part (pos (counts x) +ℤ pos 0)) m (λ x. ground arith) h
    partition_rounds-HoldsRows ((row, w) ∷ changes) counts m delta once h =
        let counts' = changed_count row w counts in
        let (m', delta') = partition_round before key_of row w (m, delta) in
        HoldsRows-congr (λ x. pos_part (pos (counts' x) +ℤ get changes x))
          (λ x. pos_part (pos (counts x) +ℤ get ((row, w) ∷ changes) x))
          (partition_rounds before key_of changes (m', delta')).0
          (λ x. count-cons row x w changes counts (once x))
          (partition_rounds-HoldsRows changes counts' m' delta'
            (λ x. omega (arith, once x, once_more row x w changes))
            (partition_round-HoldsRows row w counts m delta h))
