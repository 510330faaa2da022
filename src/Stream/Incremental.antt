-- ===== src/Stream/Incremental.antt =====
-- IncrementalOperator: the changes that it puts out add up to the operator's value on the sum of its
-- inputs. BilinearIncremental: so do the three terms of the formula, for a bilinear function.
use mathlib.Core.Path.{subst}
use mathlib.Core.List.{map}
use duck_dbsp.Prelude.{◌≡◌, refl, ap, sym, ◌∙◌, List, [], ◌∷◌}
use duck_dbsp.Prelude.Int.{◌+ℤ◌, int_laws}
use duck_dbsp.Prelude.Equality.{Eq}
use duck_dbsp.Flat.{find}
use duck_dbsp.Zset.{ZSet, empty, get, plus, minus}
use duck_dbsp.Zset.Reduced.{IsReduced, plus-IsReduced, minus-IsReduced, empty-IsReduced}
use duck_dbsp.Zset.Same.{◌≈◌}
use duck_dbsp.Zset.Weights.{get-plus}
use duck_dbsp.Stream.{IncrementalOperator, BilinearIncremental, incremental, bilinear}
use duck_dbsp.Stream.Run.{outputs, plus_all, sum_all}

module _ {ℓ κ} {A : Type ℓ} {B : Type κ} ⦃ea : Eq A⦄ ⦃eb : Eq B⦄ where
  abbrev pub new_incremental : IncrementalOperator A B
  new_incremental = record { input_integrated = empty; output_previous = empty }

  abbrev pub new_bilinear : BilinearIncremental A B
  new_bilinear = record { prev_integrated_a = empty; prev_integrated_b = empty }

  module _ (op : ZSet A → ZSet B) (reduced : (z : ZSet A) → IsReduced z → IsReduced (op z)) where
    -- One change takes a sum of outputs from the old value to the new one.
    step_same :
        (previous value out : ZSet B)
        → out ≈ previous
        → IsReduced out
        → IsReduced previous
        → IsReduced value
        → plus out (minus value previous) ≈ value
    step_same previous value out e r rp rv x = omega (
      int_laws,
      (get-plus out (minus value previous) x r (minus-IsReduced value previous rv)).0,
      (get-plus value previous x rv rp).1,
      e x,
    )

    incremental_from :
        (s : IncrementalOperator A B) (out : ZSet B) (ds : List (ZSet A))
        → s.output_previous ≡ op s.input_integrated
        → out ≈ s.output_previous
        → IsReduced out
        → IsReduced s.input_integrated
        → plus_all out (outputs (incremental op) s ds) ≈ op (plus_all s.input_integrated ds)
    unfolding incremental
    incremental_from s out [] valid e r ri = λ x. e x ∙ ap (λ z. get z x) valid
    incremental_from s out (d ∷ ds) valid e r ri =
        let value = op (plus s.input_integrated d) in
        let change = minus value s.output_previous in
        let input-IsReduced = plus-IsReduced s.input_integrated d ri in
        let rv = reduced (plus s.input_integrated d) input-IsReduced in
        incremental_from
          (record { input_integrated = plus s.input_integrated d; output_previous = value })
          (plus out change) ds refl
          (step_same s.output_previous value out e r
            (subst IsReduced (sym valid) (reduced s.input_integrated ri)) rv)
          (plus-IsReduced out change r) input-IsReduced

    -- For a function that keeps Z-sets reduced, the changes that IncrementalOperator puts out over one
    -- or more steps have the sum that the function gives on the sum of the input changes.
    pub incremental_sum :
        (d : ZSet A) (ds : List (ZSet A))
        → sum_all (outputs (incremental op) new_incremental (d ∷ ds)) ≈ op (sum_all (d ∷ ds))
    unfolding incremental
    incremental_sum d ds =
        let value = op (plus empty d) in
        let input-IsReduced = plus-IsReduced empty d empty-IsReduced in
        let rv = reduced (plus empty d) input-IsReduced in
        incremental_from (record { input_integrated = plus empty d; output_previous = value })
          (plus empty (minus value empty)) ds refl
          (step_same empty value empty (λ x. refl) empty-IsReduced empty-IsReduced rv)
          (plus-IsReduced empty (minus value empty) empty-IsReduced) input-IsReduced

-- A function on Z-sets that is linear in each argument, up to the order of slots.
pub record IsBilinear {ℓ κ μ} {A : Type ℓ} {B : Type κ} {C : Type μ} ⦃ea : Eq A⦄ ⦃eb : Eq B⦄
    ⦃ec : Eq C⦄ (fn : ZSet A → ZSet B → ZSet C) : Type (ℓ ⊔ κ ⊔ μ) where
  pub reduced : (a : ZSet A) (b : ZSet B) → IsReduced (fn a b)
  pub left : (a a' : ZSet A) (b : ZSet B) → fn (plus a a') b ≈ plus (fn a b) (fn a' b)
  pub right : (a : ZSet A) (b b' : ZSet B) → fn a (plus b b') ≈ plus (fn a b) (fn a b')

module _ {ℓ κ μ} {A : Type ℓ} {B : Type κ} {C : Type μ} ⦃ea : Eq A⦄ ⦃eb : Eq B⦄ ⦃ec : Eq C⦄ where
  module _ (fn : ZSet A → ZSet B → ZSet C) (linear : IsBilinear fn) where
    get-left :
        (a a' : ZSet A) (b : ZSet B) (x : C)
        → get (fn (plus a a') b) x ≡ get (fn a b) x +ℤ get (fn a' b) x
    get-left a a' b x =
        linear.left a a' b x
        ∙ (get-plus (fn a b) (fn a' b) x (linear.reduced a b) (linear.reduced a' b)).0

    get-right :
        (a : ZSet A) (b b' : ZSet B) (x : C)
        → get (fn a (plus b b')) x ≡ get (fn a b) x +ℤ get (fn a b') x
    get-right a b b' x =
        linear.right a b b' x
        ∙ (get-plus (fn a b) (fn a b') x (linear.reduced a b) (linear.reduced a b')).0

    -- The three terms are what the function's value grows by.
    terms_same :
        (a da : ZSet A) (b db : ZSet B) (out : ZSet C)
        → out ≈ fn a b
        → IsReduced out
        → plus out (plus (plus (fn da db) (fn a db)) (fn da b)) ≈ fn (plus a da) (plus b db)
    terms_same a da b db out e r x =
        let two = plus (fn da db) (fn a db) in
        let r0 = linear.reduced da db in
        let r2 = plus-IsReduced (fn da db) (fn a db) r0 in
        omega (
          int_laws,
          (get-plus out (plus two (fn da b)) x r (plus-IsReduced two (fn da b) r2)).0,
          (get-plus two (fn da b) x r2 (linear.reduced da b)).0,
          (get-plus (fn da db) (fn a db) x r0 (linear.reduced a db)).0,
          get-left a da (plus b db) x,
          get-right a b db x,
          get-right da b db x,
          e x,
        )

    bilinear_from :
        (s : BilinearIncremental A B) (out : ZSet C) (ds : List (ZSet A × ZSet B))
        → out ≈ fn s.prev_integrated_a s.prev_integrated_b
        → IsReduced out
        → plus_all out (outputs (bilinear fn) s ds)
          ≈ fn
              (plus_all s.prev_integrated_a (map (λ d. d.0) ds))
              (plus_all s.prev_integrated_b (map (λ d. d.1) ds))
    unfolding bilinear
    bilinear_from s out [] e r = e
    bilinear_from s out ((da, db) ∷ ds) e r =
        let a = s.prev_integrated_a in
        let b = s.prev_integrated_b in
        let change = plus (plus (fn da db) (fn a db)) (fn da b) in
        bilinear_from (record { prev_integrated_a = plus a da; prev_integrated_b = plus b db })
          (plus out change) ds (terms_same a da b db out e r) (plus-IsReduced out change r)

    fn-empty : empty ≈ fn empty empty
    unfolding plus get find
    fn-empty x = omega (int_laws, get-left empty empty empty x)

    -- For a bilinear function, the outputs of BilinearIncremental (its three terms at each step) add up
    -- to the function on the sums of the two input streams.
    pub bilinear_sum :
        (ds : List (ZSet A × ZSet B))
        → sum_all (outputs (bilinear fn) new_bilinear ds)
          ≈ fn (sum_all (map (λ d. d.0) ds)) (sum_all (map (λ d. d.1) ds))
    bilinear_sum ds = bilinear_from new_bilinear empty ds fn-empty empty-IsReduced
