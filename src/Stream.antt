-- ===== src/Stream.antt =====
-- include/dbsp_stream.hpp: the stream operators. An operator is its state and a function `process`
-- that takes the value of one time step and returns the output and the next state.
pub mod Run
pub mod Integrals
pub mod Incremental
pub mod Distinct
pub mod Join
pub mod Aggregate
use duck_dbsp.Prelude.{ℕ, ◌+◌, ◌%◌, ◌^◌, Bool, true, false, List, [], ◌∷◌, ◌&&◌, not, if◌then◌else◌}
use duck_dbsp.Prelude.Int.{ℤ, pos, negsuc, ◌+ℤ◌, ltb_ℤ}
use duck_dbsp.Prelude.Equality.{Eq}
use duck_dbsp.Zset
use duck_dbsp.Zset.{ZSet, empty, plus, minus}

-- `time_` is a `uint64_t`.
pub record StreamState {ℓ} (A : Type ℓ) : Type ℓ where
  pub integrated : ZSet A
  pub delayed : ZSet A
  pub time : ℕ

pub record Differentiation {ℓ} (A : Type ℓ) : Type ℓ where
  pub previous : ZSet A

pub record Integration {ℓ} (A : Type ℓ) : Type ℓ where
  pub state : ZSet A

pub record Delay {ℓ} (A : Type ℓ) : Type ℓ where
  pub previous : ZSet A

pub record IncrementalOperator {ℓ κ} (A : Type ℓ) (B : Type κ) : Type (ℓ ⊔ κ) where
  pub input_integrated : ZSet A
  pub output_previous : ZSet B

pub record BilinearIncremental {ℓ κ} (A : Type ℓ) (B : Type κ) : Type (ℓ ⊔ κ) where
  pub prev_integrated_a : ZSet A
  pub prev_integrated_b : ZSet B

pub record IncrementalDistinct {ℓ} (A : Type ℓ) : Type ℓ where
  pub integrated : ZSet A

-- The states that the constructors and `reset` give.
module _ {ℓ} {A : Type ℓ} where
  abbrev pub new_stream : StreamState A
  new_stream = record { integrated = empty; delayed = empty; time = 0 }

  abbrev pub new_integration : Integration A
  new_integration = record { state = empty }

  abbrev pub new_differentiation : Differentiation A
  new_differentiation = record { previous = empty }

  abbrev pub new_delay : Delay A
  new_delay = record { previous = empty }

  abbrev pub new_distinct : IncrementalDistinct A
  new_distinct = record { integrated = empty }

module _ {ℓ} {A : Type ℓ} ⦃key : Eq A⦄ where
  unfoldable pub stream_step : StreamState A → ZSet A → StreamState A
  stream_step s delta = record {
    integrated = plus s.integrated delta;
    delayed = s.integrated;
    time = (s.time + 1) % 2 ^ 64;
  }

  unfoldable pub integrate : Integration A → ZSet A → ZSet A × Integration A
  integrate s delta = let sum = plus s.state delta in (sum, record { state = sum })

  unfoldable pub differentiate : Differentiation A → ZSet A → ZSet A × Differentiation A
  differentiate s current = (minus current s.previous, record { previous = current })

  unfoldable pub delay : Delay A → ZSet A → ZSet A × Delay A
  delay s current = (s.previous, record { previous = current })

  -- One round of the loop of IncrementalDistinct: the integrated state and the result.
  unfoldable pub distinct_round : A → ℤ → ZSet A × ZSet A → ZSet A × ZSet A
  distinct_round x w (integrated, result) =
      let old_weight = Zset.get integrated x in
      let new_weight = old_weight +ℤ w in
      let was_positive = ltb_ℤ (pos 0) old_weight in
      let is_positive = ltb_ℤ (pos 0) new_weight in
      (
        Zset.insert x w integrated,
        (if not was_positive && is_positive
            then Zset.insert x (pos 1) result
            else if was_positive && not is_positive
            then Zset.insert x (negsuc 0) result
            else result),
      )

  unfoldable pub distinct_rounds : ZSet A → ZSet A × ZSet A → ZSet A × ZSet A
  unfolding distinct_round
  distinct_rounds [] s = s
  distinct_rounds ((x, w) ∷ delta) s = distinct_rounds delta (distinct_round x w s)

  unfoldable pub distinct_delta : IncrementalDistinct A → ZSet A → ZSet A × IncrementalDistinct A
  unfolding distinct_rounds
  distinct_delta s delta =
      let (integrated, result) = distinct_rounds delta (s.integrated, empty) in
      (result, record { integrated = integrated })

module _ {ℓ κ} {A : Type ℓ} {B : Type κ} ⦃ea : Eq A⦄ ⦃eb : Eq B⦄ where
  unfoldable pub incremental :
      (ZSet A → ZSet B) → IncrementalOperator A B → ZSet A → ZSet B × IncrementalOperator A B
  incremental op s input_delta =
      let input = plus s.input_integrated input_delta in
      let output_value = op input in
      (
        minus output_value s.output_previous,
        record { input_integrated = input; output_previous = output_value },
      )

  unfoldable pub bilinear {μ} :
      {C : Type μ} ⦃ec : Eq C⦄
      → (ZSet A → ZSet B → ZSet C)
      → BilinearIncremental A B
      → ZSet A × ZSet B
      → ZSet C × BilinearIncremental A B
  bilinear fn s (delta_a, delta_b) = (
    plus (plus (fn delta_a delta_b) (fn s.prev_integrated_a delta_b))
        (fn delta_a s.prev_integrated_b),
    record {
      prev_integrated_a = plus s.prev_integrated_a delta_a;
      prev_integrated_b = plus s.prev_integrated_b delta_b;
    },
  )
