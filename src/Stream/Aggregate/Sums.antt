-- ===== src/Stream/Aggregate/Sums.antt =====
-- What the outputs of IncrementalAggregate add up to.
use duck_dbsp.Prelude.{
  ◌≡◌, refl, ap, sym, ◌∙◌, List, [], ◌∷◌, true, false, Bool, if◌then◌else◌, inl, inr, Bool-cases,
  not, ◌&&◌,
}
use duck_dbsp.Prelude.Int.{
  ℤ, pos, negsuc, ◌+ℤ◌, ◌-ℤ◌, ◌*ℤ◌, int_laws, ◌==ℤ◌, ==ℤ_iff, mul_comm, mul-one,
}
use duck_dbsp.Prelude.Equality.{Eq, ◌==◌, pair_eq, int_eq}
use duck_dbsp.Umap
use duck_dbsp.Umap.{Umap}
use duck_dbsp.Flat.{find}
use duck_dbsp.Zset.{ZSet, empty, get, insert, plus}
use duck_dbsp.Zset.Reduced.{IsReduced, insert-IsReduced, empty-IsReduced, plus-IsReduced}
use duck_dbsp.Zset.Total.{total, total-plus, total-empty}
use duck_dbsp.Zset.Weights.{get-insert, get-plus}
use duck_dbsp.Stream.Run.{outputs, plus_all, sum_all}
use duck_dbsp.Stream.Aggregate.{
  IncrementalAggregate, new_aggregate, value_at, sum_round, count_round, process_sum, process_count,
}
use duck_dbsp.Stream.Aggregate.Groups.{if_zero, value_at-update, IsRound, group_total, process_lem}

-- SUM has a row of weight 1 for a group whose sum is not 0.
abbrev pub sum_shape : ℤ → ℤ → ℤ
sum_shape total v = if total ==ℤ pos 0 then pos 0 else if total ==ℤ v then pos 1 else pos 0

-- COUNT has a row of weight 1 at the group's count, and one of weight -1 at 0.
abbrev pub count_shape : ℤ → ℤ → ℤ
count_shape total v =
    (if total ==ℤ v then pos 1 else pos 0) -ℤ (if pos 0 ==ℤ v then pos 1 else pos 0)

if_and :
    (p q : Bool) (w : ℤ)
    → (if p && q then w else pos 0) ≡ (if p then (if q then w else pos 0) else pos 0)
if_and true q w = refl
if_and false q w = refl

cancel : (b : Bool) → (if b then negsuc 0 else pos 0) +ℤ (if b then pos 1 else pos 0) ≡ pos 0
cancel true = omega int_laws
cancel false = omega int_laws

cancel_sum :
    (z b : Bool)
    → (if z then pos 0 else if b then negsuc 0 else pos 0)
        +ℤ (if z then pos 0 else if b then pos 1 else pos 0)
      ≡ pos 0
cancel_sum true b = omega int_laws
cancel_sum false b = cancel b

module _ {κ} {K : Type κ} ⦃ek : Eq K⦄ where
  get-insert_pair :
      (k j : K) (s v w : ℤ) (result : ZSet (K × ℤ))
      → IsReduced result
      → get (insert (k, s) w result) (j, v)
        ≡ get result (j, v) +ℤ (if k == j then (if s ==ℤ v then w else pos 0) else pos 0)
  get-insert_pair k j s v w result r =
      get-insert (k, s) w result (j, v) r
      ∙ ap (λ t. get result (j, v) +ℤ t) (if_and (k == j) (s ==ℤ v) w)

  value_at-change :
      (m : Umap K ℤ) (k j : K) (c : ℤ)
      → value_at (Umap.update (pos 0) k (λ _. value_at m k +ℤ c) m) j
        ≡ value_at m j +ℤ (if k == j then c else pos 0)
  value_at-change m k j c = elim (Bool-cases (k == j)) [
    | inl e ↦ rw (value_at-update, e) (ap (λ (i : K). value_at m i +ℤ c) ((ek.equal_iff k j).0 e))
    | inr e ↦ rw (value_at-update, e) (omega int_laws)
  ]

  count_weights :
      (k : K) (c : ℤ) (m : Umap K ℤ) (result : ZSet (K × ℤ)) (j : K) (v : ℤ)
      → IsReduced result
      → let old = value_at m k in
        get (insert (k, old +ℤ c) (pos 1) (insert (k, old) (negsuc 0) result)) (j, v)
        ≡ get result (j, v)
          +ℤ (count_shape (value_at (Umap.update (pos 0) k (λ _. old +ℤ c) m) j) v
              -ℤ count_shape (value_at m j) v)
  count_weights k c m result j v r =
      let old = value_at m k in
      let removed = insert (k, old) (negsuc 0) result in
      get-insert_pair k j (old +ℤ c) v (pos 1) removed
        (insert-IsReduced (k, old) (negsuc 0) result r)
      ∙ rw (get-insert_pair k j old v (negsuc 0) result r) (elim (Bool-cases (k == j)) [
        | inl e ↦
            let same : value_at m j ≡ old = ap (value_at m) (sym ((ek.equal_iff k j).0 e)) in
            rw (value_at-update, e, same) (omega (int_laws, cancel (old ==ℤ v)))
        | inr e ↦ rw (value_at-update, e) (omega int_laws)
      ])

  count_round-IsRound : IsRound {K = K} count_shape count_round
  unfolding count_round
  count_round-IsRound = record {
    values = λ k c m result j. elim (Bool-cases (c ==ℤ pos 0)) [
      | inl e ↦ rw (e, (==ℤ_iff c (pos 0)).0 e) (sym (if_zero (k == j) (value_at m j)))
      | inr e ↦ rw e (value_at-change m k j c)
    ];
    reduced = λ k c m result r. elim (Bool-cases (c ==ℤ pos 0)) [
      | inl e ↦ rw e r
      | inr e ↦ rw e (insert-IsReduced _ _ _ (insert-IsReduced _ _ _ r))
    ];
    weights = λ k c m result j v r. elim (Bool-cases (c ==ℤ pos 0)) [
      | inl e ↦ rw e (omega int_laws)
      | inr e ↦ rw e (count_weights k c m result j v r)
    ];
  }

  sum_kept :
      (k j : K) (s v w : ℤ) (result : ZSet (K × ℤ))
      → IsReduced result
      → get (if not (s ==ℤ pos 0) then insert (k, s) w result else result) (j, v)
        ≡ get result (j, v)
          +ℤ (if k == j
              then (if s ==ℤ pos 0 then pos 0 else if s ==ℤ v then w else pos 0)
              else pos 0)
  sum_kept k j s v w result r = elim (Bool-cases (s ==ℤ pos 0)) [
    | inl e ↦ rw e (sym (if_zero (k == j) (get result (j, v))))
    | inr e ↦ rw e (get-insert_pair k j s v w result r)
  ]

  sum_kept-IsReduced :
      (k : K) (s w : ℤ) (result : ZSet (K × ℤ))
      → IsReduced result
      → IsReduced (if not (s ==ℤ pos 0) then insert (k, s) w result else result)
  sum_kept-IsReduced k s w result r = elim (Bool-cases (s ==ℤ pos 0)) [
    | inl e ↦ rw e r
    | inr e ↦ rw e (insert-IsReduced (k, s) w result r)
  ]

  sum_weights :
      (k : K) (c : ℤ) (m : Umap K ℤ) (result : ZSet (K × ℤ)) (j : K) (v : ℤ)
      → IsReduced result
      → let old = value_at m k in
        let new = old +ℤ c in
        let removed = if not (old ==ℤ pos 0) then insert (k, old) (negsuc 0) result else result in
        get (if not (new ==ℤ pos 0) then insert (k, new) (pos 1) removed else removed) (j, v)
        ≡ get result (j, v)
          +ℤ (sum_shape (value_at (Umap.update (pos 0) k (λ _. new) m) j) v
              -ℤ sum_shape (value_at m j) v)
  sum_weights k c m result j v r =
      let old = value_at m k in
      let removed = if not (old ==ℤ pos 0) then insert (k, old) (negsuc 0) result else result in
      sum_kept k j (old +ℤ c) v (pos 1) removed (sum_kept-IsReduced k old (negsuc 0) result r)
      ∙ rw (sum_kept k j old v (negsuc 0) result r) (elim (Bool-cases (k == j)) [
        | inl e ↦
            let same : value_at m j ≡ old = ap (value_at m) (sym ((ek.equal_iff k j).0 e)) in
            rw (value_at-update, e, same) (omega (int_laws, cancel_sum (old ==ℤ pos 0) (old ==ℤ v)))
        | inr e ↦ rw (value_at-update, e) (omega int_laws)
      ])

  sum_round-IsRound : IsRound {K = K} sum_shape sum_round
  unfolding sum_round
  sum_round-IsRound = record {
    values = λ k c m result j. elim (Bool-cases (c ==ℤ pos 0)) [
      | inl e ↦ rw (e, (==ℤ_iff c (pos 0)).0 e) (sym (if_zero (k == j) (value_at m j)))
      | inr e ↦ rw e (value_at-change m k j c)
    ];
    reduced = λ k c m result r. elim (Bool-cases (c ==ℤ pos 0)) [
      | inl e ↦ rw e r
      | inr e ↦ rw e (
          sum_kept-IsReduced k (value_at m k +ℤ c) (pos 1) _
            (sum_kept-IsReduced k (value_at m k) (negsuc 0) result r))
    ];
    weights = λ k c m result j v r. elim (Bool-cases (c ==ℤ pos 0)) [
      | inl e ↦ rw e (omega int_laws)
      | inr e ↦ rw e (sum_weights k c m result j v r)
    ];
  }

  module _ {ℓ} {A : Type ℓ} ⦃ea : Eq A⦄ (key_fn : A → K) (value_fn : A → ℤ) where
    sum_from :
        (s : IncrementalAggregate K) (z : ZSet A) (out : ZSet (K × ℤ)) (ds : List (ZSet A)) (j : K)
        (v : ℤ)
        → value_at s.sums j ≡ group_total key_fn value_fn j z
        → get out (j, v) ≡ sum_shape (value_at s.sums j) v
        → IsReduced out
        → get (plus_all out (outputs (process_sum key_fn value_fn) s ds)) (j, v)
          ≡ sum_shape (group_total key_fn value_fn j (plus_all z ds)) v
    unfolding process_sum
    sum_from s z out [] j v e o r = o ∙ ap (λ t. sum_shape t v) e
    sum_from s z out (d ∷ ds) j v e o r =
        let (values, reduced, weights) =
          process_lem sum_shape sum_round sum_round-IsRound key_fn value_fn (λ x w. value_fn x *ℤ w)
            (λ x w. mul_comm (value_fn x) w) d s.sums j v in
        sum_from (process_sum key_fn value_fn s d).1 (plus z d)
          (plus out (process_sum key_fn value_fn s d).0) ds j v
          (omega (
            int_laws,
            values,
            e,
            total-plus (λ x. if key_fn x == j then value_fn x else pos 0) z d,
          ))
          (omega (
            int_laws,
            (get-plus out (process_sum key_fn value_fn s d).0 (j, v) r reduced).0,
            weights,
            o,
          ))
          (plus-IsReduced out (process_sum key_fn value_fn s d).0 r)

    count_from :
        (s : IncrementalAggregate K) (z : ZSet A) (out : ZSet (K × ℤ)) (ds : List (ZSet A)) (j : K)
        (v : ℤ)
        → value_at s.counts j ≡ group_total key_fn (λ _. pos 1) j z
        → get out (j, v) ≡ count_shape (value_at s.counts j) v
        → IsReduced out
        → get (plus_all out (outputs (process_count key_fn value_fn) s ds)) (j, v)
          ≡ count_shape (group_total key_fn (λ _. pos 1) j (plus_all z ds)) v
    unfolding process_count
    count_from s z out [] j v e o r = o ∙ ap (λ t. count_shape t v) e
    count_from s z out (d ∷ ds) j v e o r =
        let (values, reduced, weights) =
          process_lem count_shape count_round count_round-IsRound key_fn (λ _. pos 1) (λ x w. w)
            (λ x w. sym (mul-one w)) d s.counts j v in
        count_from (process_count key_fn value_fn s d).1 (plus z d)
          (plus out (process_count key_fn value_fn s d).0) ds j v
          (omega
            (int_laws, values, e, total-plus (λ x. if key_fn x == j then pos 1 else pos 0) z d))
          (omega (
            int_laws,
            (get-plus out (process_count key_fn value_fn s d).0 (j, v) r reduced).0,
            weights,
            o,
          ))
          (plus-IsReduced out (process_count key_fn value_fn s d).0 r)

    value_at-new : (j : K) → value_at {K = K} [] j ≡ pos 0
    unfolding value_at Umap.find
    value_at-new j = refl

    nothing : (j : K) (g : A → ℤ) → value_at {K = K} [] j ≡ total g empty
    nothing j g = value_at-new j ∙ sym (total-empty g)

    shape-zero : (v : ℤ) → count_shape (pos 0) v ≡ pos 0
    shape-zero v = omega int_laws

    -- SUM: over any steps, the outputs of `process_sum` add up to one row of weight 1 for each group
    -- whose sum is not 0, which holds the sum of value times weight over the group's elements.
    pub process_sum_sum :
        (ds : List (ZSet A)) (j : K) (v : ℤ)
        → get (sum_all (outputs (process_sum key_fn value_fn) new_aggregate ds)) (j, v)
          ≡ sum_shape (group_total key_fn value_fn j (sum_all ds)) v
    unfolding get find
    process_sum_sum ds j v =
        sum_from new_aggregate empty empty ds j v (nothing j _)
          (ap (λ t. sum_shape t v) (sym (value_at-new j))) empty-IsReduced

    -- COUNT: over any steps, the outputs of `process_count` add up to a row of weight 1 at each group's
    -- count and a row of weight -1 at count 0; the two cancel for a group whose count is 0.
    pub process_count_sum :
        (ds : List (ZSet A)) (j : K) (v : ℤ)
        → get (sum_all (outputs (process_count key_fn value_fn) new_aggregate ds)) (j, v)
          ≡ count_shape (group_total key_fn (λ _. pos 1) j (sum_all ds)) v
    unfolding get find
    process_count_sum ds j v =
        count_from new_aggregate empty empty ds j v (nothing j _)
          (sym (shape-zero v) ∙ ap (λ t. count_shape t v) (sym (value_at-new j))) empty-IsReduced
