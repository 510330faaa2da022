-- ===== src/Circuit/Sinks.antt =====
-- include/dbsp_circuit.hpp, SinkNode::step: the integrated result.
use duck_dbsp.Prelude.{◌≡◌, refl, true, [], ◌∷◌}
use duck_dbsp.Prelude.Equality.{Eq}
use duck_dbsp.Zset.{ZSet, plus}
use duck_dbsp.Circuit.Nodes.{SinkNode, sink_step}

module _ {ℓ} {A : Type ℓ} ⦃key : Eq A⦄ where
  pub sink_step-integrated :
      (delta : ZSet A) (n : SinkNode A)
      → n.integrate ≡ true
      → (sink_step delta n).integrated ≡ plus n.integrated delta
  unfolding sink_step plus
  sink_step-integrated [] n e = refl
  sink_step-integrated (x ∷ delta) n e = rw e refl

  pub sink_step-integrate :
      (delta : ZSet A) (n : SinkNode A) → (sink_step delta n).integrate ≡ n.integrate
  unfolding sink_step
  sink_step-integrate [] n = refl
  sink_step-integrate (x ∷ delta) n = refl
