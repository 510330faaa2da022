-- ===== src/Stream/Aggregate/Groups.antt =====
-- The loops of IncrementalAggregate, for any rule that says what a group's total contributes to the
-- output.
use duck_dbsp.Prelude.{
  ◌≡◌, refl, Option, none, some, [], ◌∷◌, true, false, Bool, if◌then◌else◌, arith,
}
use duck_dbsp.Prelude.Int.{ℤ, pos, ◌+ℤ◌, ◌-ℤ◌, ◌*ℤ◌, int_laws, mul-zero}
use duck_dbsp.Prelude.Equality.{Eq, ◌==◌, pair_eq, int_eq}
use duck_dbsp.Umap
use duck_dbsp.Umap.{Umap}
use duck_dbsp.Umap.Sums.{sum, part, find-update, sum-update}
use duck_dbsp.Flat.{find}
use duck_dbsp.Flat.Measures.{tally}
use duck_dbsp.Zset.{ZSet, empty, get}
use duck_dbsp.Zset.Reduced.{IsReduced, empty-IsReduced}
use duck_dbsp.Zset.Total.{total}
use duck_dbsp.Stream.Aggregate.{value_at, group_changes, emit}

pub if_zero : (b : Bool) (v : ℤ) → v +ℤ (if b then pos 0 else pos 0) ≡ v
if_zero true v = omega int_laws
if_zero false v = omega int_laws

abbrev pub Step {κ} : Type κ → Type κ
Step K = K → ℤ → Umap K ℤ × ZSet (K × ℤ) → Umap K ℤ × ZSet (K × ℤ)

pub grow :
    (b : Bool) (v amount w value : ℤ)
    → amount ≡ w *ℤ value
    → (if b then v +ℤ amount else pos 0)
      ≡ (if b then v else pos 0) +ℤ w *ℤ (if b then value else pos 0)
grow true v amount w value e = omega (int_laws, e)
grow false v amount w value e = omega (int_laws, mul-zero w)

module _ {κ} {K : Type κ} ⦃ek : Eq K⦄ where
  pub value_at-update :
      (m : Umap K ℤ) (k j : K) (f : ℤ → ℤ)
      → value_at (Umap.update (pos 0) k f m) j ≡ (if k == j then f (value_at m k) else value_at m j)
  unfolding value_at
  value_at-update m k j f = rw find-update (ground arith)

  -- A round adds the change to the group's total, and to the output what that total contributes
  -- now and did not before.
  pub record IsRound (shape : ℤ → ℤ → ℤ) (round : Step K) : Type κ where
    pub values :
        (k : K) (c : ℤ) (m : Umap K ℤ) (result : ZSet (K × ℤ)) (j : K)
        → value_at (round k c (m, result)).0 j ≡ value_at m j +ℤ (if k == j then c else pos 0)
    pub reduced :
        (k : K) (c : ℤ) (m : Umap K ℤ) (result : ZSet (K × ℤ))
        → IsReduced result
        → IsReduced (round k c (m, result)).1
    pub weights :
        (k : K) (c : ℤ) (m : Umap K ℤ) (result : ZSet (K × ℤ)) (j : K) (v : ℤ)
        → IsReduced result
        → get (round k c (m, result)).1 (j, v)
          ≡ get result (j, v)
            +ℤ (shape (value_at (round k c (m, result)).0 j) v -ℤ shape (value_at m j) v)

  unfoldable pub at_key : K → K → ℤ → ℤ
  at_key j k c = if k == j then c else pos 0

  module _ (shape : ℤ → ℤ → ℤ) (round : Step K) (law : IsRound shape round) where
    emit_lem :
        (changes : Umap K ℤ) (m : Umap K ℤ) (result : ZSet (K × ℤ)) (j : K) (v : ℤ)
        → IsReduced result
        → let s = emit round changes (m, result) in
          (value_at s.0 j ≡ value_at m j +ℤ sum (at_key j) changes)
          × IsReduced s.1
          × (get s.1 (j, v)
              ≡ get result (j, v) +ℤ (shape (value_at s.0 j) v -ℤ shape (value_at m j) v))
    unfolding emit sum at_key
    emit_lem [] m result j v r = (omega int_laws, r, omega int_laws)
    emit_lem ((k, c) ∷ changes) m result j v r =
        let next = round k c (m, result) in
        let (values, reduced, weights) =
          emit_lem changes next.0 next.1 j v (law.reduced k c m result r) in
        (
          omega (int_laws, values, law.values k c m result j),
          reduced,
          omega (int_laws, weights, law.weights k c m result j v r),
        )

  part-at_key :
      (j k : K) (o : Option ℤ) → part (at_key j) k o ≡ at_key j k (Umap.or_default (pos 0) o)
  unfolding at_key
  part-at_key j k none = ground arith
  part-at_key j k (some v) = refl

  -- The sum of the amounts of a group's slots.
  abbrev pub group_total {ℓ} : {A : Type ℓ} → (A → K) → (A → ℤ) → K → ZSet A → ℤ
  group_total key_fn value_fn j z = total (λ x. if key_fn x == j then value_fn x else pos 0) z

  pub sum-group_changes {ℓ} :
      {A : Type ℓ} (key_fn : A → K) (value_fn : A → ℤ) (amount : A → ℤ → ℤ)
      → ((x : A) (w : ℤ) → amount x w ≡ w *ℤ value_fn x)
      → (z : ZSet A) (changes : Umap K ℤ) (j : K)
      → sum (at_key j) (group_changes key_fn amount z changes)
        ≡ sum (at_key j) changes +ℤ group_total key_fn value_fn j z
  unfolding group_changes total tally at_key
  sum-group_changes key_fn value_fn amount e [] changes j = omega int_laws
  sum-group_changes key_fn value_fn amount e ((x, w) ∷ z) changes j =
      let k = key_fn x in
      let f : ℤ → ℤ = λ v. v +ℤ amount x w in
      omega (
        int_laws,
        sum-group_changes key_fn value_fn amount e z (Umap.update (pos 0) k f changes) j,
        sum-update (at_key j) (pos 0) k f changes,
        part-at_key j k (Umap.find k changes),
        grow (k == j) (Umap.or_default (pos 0) (Umap.find k changes)) (amount x w) w (value_fn x)
            (e x w),
      )

  module _ (shape : ℤ → ℤ → ℤ) (round : Step K) (law : IsRound shape round) where
    -- One call: the loop over the changes of a delta, from an empty result.
    pub process_lem {ℓ} :
        {A : Type ℓ} (key_fn : A → K) (value_fn : A → ℤ) (amount : A → ℤ → ℤ)
        → ((x : A) (w : ℤ) → amount x w ≡ w *ℤ value_fn x)
        → (delta : ZSet A) (m : Umap K ℤ) (j : K) (v : ℤ)
        → let s = emit round (group_changes key_fn amount delta []) (m, empty) in
          (value_at s.0 j ≡ value_at m j +ℤ group_total key_fn value_fn j delta)
          × IsReduced s.1
          × (get s.1 (j, v) ≡ shape (value_at s.0 j) v -ℤ shape (value_at m j) v)
    unfolding sum get find
    process_lem key_fn value_fn amount e delta m j v =
        let changes = group_changes key_fn amount delta [] in
        let (values, reduced, weights) =
          emit_lem shape round law changes m empty j v empty-IsReduced in
        (
          omega (int_laws, values, sum-group_changes key_fn value_fn amount e delta [] j),
          reduced,
          omega (int_laws, weights),
        )
