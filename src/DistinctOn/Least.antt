-- ===== src/DistinctOn/Least.antt =====
-- What DISTINCT ON promises: the result has the first of each partition's rows.
use mathlib.Core.Path.{subst}
use duck_dbsp.Prelude.{
  ℕ, ◌<◌, ◌≡◌, ◌⊎◌, refl, ap, ◌∙◌, Bool, true, false, List, [], ◌∷◌, if◌then◌else◌, inl, inr,
  Bool-cases, Option, none, some, arith,
}
use duck_dbsp.Prelude.Int.{ℤ, pos}
use duck_dbsp.Prelude.Equality.{Eq, ◌==◌}
use duck_dbsp.Umap
use duck_dbsp.Umap.{Umap}
use duck_dbsp.Umap.Sums.{part, sum_congr, sum-at}
use duck_dbsp.Zset.Assign.{unit_at}
use duck_dbsp.DistinctOn.{first}
use duck_dbsp.DistinctOn.Result.{firsts, first_value}
use duck_dbsp.DistinctOn.First.{IsTotalOrder, IsSorted, NoneBefore, multiplicity, none_there}
use duck_dbsp.DistinctOn.Partitions.{rows_of, HoldsRows}

module _ {ℓ κ} {R : Type ℓ} {K : Type κ} ⦃er : Eq R⦄ ⦃ek : Eq K⦄ (before : R → R → Bool)
    (key_of : R → K) where
  -- A row that is there, and no row of its partition is that goes before it.
  pub record IsFirst (counts : R → ℕ) (x : R) : Type (ℓ ⊔ κ) where
    pub there : 0 < counts x
    pub first_of_all : (y : R) → key_of y ≡ key_of x → before y x ≡ true → counts y ≡ 0

  -- A partition's first row is a row of that partition.
  first_key :
      (counts : R → ℕ) (m : Umap K (List R)) (y : R) (k : K) (ys : List R)
      → HoldsRows before key_of counts m
      → rows_of m k ≡ y ∷ ys
      → (key_of y == k) ≡ true
  unfolding multiplicity
  first_key counts m y k ys h e =
      let count = h.counted y k in
      let found = ap (multiplicity y) e in ground (arith, er.equal_iff y y)

  foreign :
      (counts : R → ℕ) (m : Umap K (List R)) (x : R) (k : K) (rows : List R)
      → HoldsRows before key_of counts m
      → rows_of m k ≡ rows
      → first_value (unit_at x) (first rows)
        ≡ (if k == key_of x then first_value (unit_at x) (first rows) else pos 0)
  foreign counts m x k [] h e = ground arith
  foreign counts m x k (y ∷ ys) h e =
      let own : (y == x) ≡ true → key_of y ≡ key_of x =
        λ hit. ap key_of ((er.equal_iff y x).0 hit) in
      ground (
        arith,
        first_key counts m y k ys h e,
        ek.equal_iff (key_of y) k,
        ek.equal_iff k (key_of x),
        own,
      )

  part_at :
      (x : R) (o : Option (List R))
      → part
          (λ k rows. if k == key_of x then first_value (unit_at x) (first rows) else pos 0)
          (key_of x)
          o
        ≡ first_value (unit_at x) (first (Umap.or_default [] o))
  part_at x none = refl
  part_at x (some rows) = rw ((ek.equal_iff (key_of x) (key_of x)).1 refl) refl

  count_here :
      (counts : R → ℕ) (m : Umap K (List R)) (x y : R) (rows : List R)
      → HoldsRows before key_of counts m
      → rows_of m (key_of x) ≡ rows
      → key_of y ≡ key_of x
      → counts y ≡ multiplicity y rows
  count_here counts m x y rows h e same =
      let count = h.counted y (key_of x) in
      let found = ap (multiplicity y) e in
      let hit = (ek.equal_iff (key_of y) (key_of x)).1 same in ground (arith, count, found, hit)

  firsts-unit_at :
      (counts : R → ℕ) (m : Umap K (List R)) (x : R)
      → HoldsRows before key_of counts m
      → firsts (unit_at x) m ≡ first_value (unit_at x) (first (rows_of m (key_of x)))
  firsts-unit_at counts m x h =
      let here : K → List R → ℤ =
        λ k rows. if k == key_of x then first_value (unit_at x) (first rows) else pos 0 in
      let only =
        sum_congr (λ k rows. first_value (unit_at x) (first rows)) here m h.unique
          (λ k rows found. foreign counts m x k rows h (ap (Umap.or_default []) found)) in
      only
      ∙ sum-at here (key_of x) m (λ k rows e. rw e refl) h.unique
      ∙ part_at x (Umap.find (key_of x) m)

  -- A row behind the first one of its partition is not first.
  not-IsFirst :
      (order : IsTotalOrder before) (counts : R → ℕ) (x y : R) (ys : List R)
      → NoneBefore before y (y ∷ ys)
      → (y == x) ≡ false
      → key_of y ≡ key_of x
      → ((z : R) → key_of z ≡ key_of x → counts z ≡ multiplicity z (y ∷ ys))
      → ¬ IsFirst counts x
  unfolding multiplicity
  not-IsFirst order counts x y ys lowest miss key count f =
      let one = count y key in
      let all = count x refl in
      elim (Bool-cases (before x y)) [
        | inl b ↦
            absurd (ground (arith, f.there, all, none_there before order x y (y ∷ ys) b lowest))
        | inr b ↦ elim (Bool-cases (before y x)) [
          | inl c ↦ absurd (ground (arith, f.first_of_all y key c, one, er.equal_iff y y))
          | inr c ↦ absurd (ground (arith, order.total x y b c, er.equal_iff y x))
        ]
      ]

  first_weight :
      (order : IsTotalOrder before) (counts : R → ℕ) (m : Umap K (List R)) (x : R) (rows : List R)
      → HoldsRows before key_of counts m
      → rows_of m (key_of x) ≡ rows
      → ((first_value (unit_at x) (first rows) ≡ pos 1) × IsFirst counts x)
        ⊎ ((first_value (unit_at x) (first rows) ≡ pos 0) × ¬ IsFirst counts x)
  unfolding multiplicity
  first_weight order counts m x [] h e =
      let count = count_here counts m x x [] h e refl in
      inr (refl, λ f. absurd (ground (arith, count, f.there)))
  first_weight order counts m x (y ∷ ys) h e =
      let sorted : IsSorted before (y ∷ ys) = subst (IsSorted before) e (h.sorted (key_of x)) in
      let lowest : NoneBefore before y (y ∷ ys) = (order.irrefl y, sorted.0) in
      let count : (z : R) → key_of z ≡ key_of x → counts z ≡ multiplicity z (y ∷ ys) =
        λ z. count_here counts m x z (y ∷ ys) h e in
      elim (Bool-cases (y == x)) [
        | inl hit ↦
            let same = (er.equal_iff y x).0 hit in
            inl (
              rw hit refl,
              record {
                there = ground (arith, count x refl, hit);
                first_of_all = λ z key b.
                    count z key
                    ∙ none_there before order z y (y ∷ ys) (ap (before z) same ∙ b) lowest;
              },
            )
        | inr miss ↦ inr (
          rw miss refl,
          not-IsFirst order counts x y ys lowest miss
              ((ek.equal_iff (key_of y) (key_of x)).0 (first_key counts m y (key_of x) ys h e))
              count,
        )
      ]

  -- The weight of a row in the first rows of the partitions.
  pub firsts-IsFirst :
      (order : IsTotalOrder before) (counts : R → ℕ) (m : Umap K (List R)) (x : R)
      → HoldsRows before key_of counts m
      → ((firsts (unit_at x) m ≡ pos 1) × IsFirst counts x)
        ⊎ ((firsts (unit_at x) m ≡ pos 0) × ¬ IsFirst counts x)
  firsts-IsFirst order counts m x h =
      rw (firsts-unit_at counts m x h) (first_weight order counts m x (rows_of m (key_of x)) h refl)
