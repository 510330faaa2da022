-- ===== src/Stream/Integrals.antt =====
-- Integration, Differentiation and Delay as operators on streams.
use duck_dbsp.Prelude.{◌≡◌, refl, ap, List, [], ◌∷◌, ◌++◌, All}
use duck_dbsp.Prelude.Int.{int_laws}
use duck_dbsp.Prelude.Equality.{Eq}
use duck_dbsp.Zset.{ZSet, plus, minus}
use duck_dbsp.Zset.Reduced.{IsReduced, plus-IsReduced, minus-IsReduced, empty-IsReduced}
use duck_dbsp.Zset.Same.{◌≈◌}
use duck_dbsp.Zset.Weights.{get-plus}
use duck_dbsp.Stream.{
  Integration, Differentiation, Delay, integrate, differentiate, delay, new_integration,
  new_differentiation,
}
use duck_dbsp.Stream.Run.{outputs}

-- The streams are of one length and related at each time step.
pub data Each {ℓ κ} {A : Type ℓ} (R : A → A → Type κ) : List A → List A → Type (ℓ ⊔ κ) where
  nil : Each R [] []
  cons : {x y : A} {xs ys : List A} → R x y → Each R xs ys → Each R (x ∷ xs) (y ∷ ys)

module _ {ℓ} {A : Type ℓ} ⦃key : Eq A⦄ where
  plus-minus : (z d : ZSet A) → IsReduced z → IsReduced d → minus (plus z d) z ≈ d
  plus-minus z d r rd x =
      omega
        (int_laws, (get-plus (plus z d) z x (plus-IsReduced z d r) r).1, (get-plus z d x r rd).0)

  differentiate_from :
      (i : Integration A) (d : Differentiation A) (ds : List (ZSet A))
      → d.previous ≡ i.state
      → IsReduced i.state
      → All IsReduced ds
      → Each ◌≈◌ (outputs differentiate d (outputs integrate i ds)) ds
  unfolding differentiate integrate
  differentiate_from i d [] e r rs = nil
  differentiate_from i d (x ∷ xs) e r rs = cons (rw e (plus-minus i.state x r rs.0)) (
      differentiate_from (record { state = plus i.state x }) (record { previous = plus i.state x })
        xs refl (plus-IsReduced i.state x r) rs.1)

  -- Differentiation inverts integration: from the integrated stream it gives back each change of a
  -- stream of reduced Z-sets, up to the order of slots.
  pub differentiate-integrate :
      (ds : List (ZSet A))
      → All IsReduced ds
      → Each ◌≈◌
          (outputs differentiate new_differentiation (outputs integrate new_integration ds))
          ds
  differentiate-integrate ds rs =
      differentiate_from new_integration new_differentiation ds refl empty-IsReduced rs

  integrate_from :
      (i : Integration A) (d : Differentiation A) (ds : List (ZSet A))
      → i.state ≈ d.previous
      → IsReduced i.state
      → IsReduced d.previous
      → All IsReduced ds
      → Each ◌≈◌ (outputs integrate i (outputs differentiate d ds)) ds
  unfolding differentiate integrate
  integrate_from i d [] e r rd rs = nil
  integrate_from i d (x ∷ xs) e r rd rs =
      let change = minus x d.previous in
      let change-IsReduced = minus-IsReduced x d.previous rs.0 in
      let same : plus i.state change ≈ x = λ a. omega (
        int_laws,
        (get-plus i.state change a r change-IsReduced).0,
        (get-plus x d.previous a rs.0 rd).1,
        e a,
      ) in
      cons same (
        integrate_from (record { state = plus i.state change }) (record { previous = x }) xs same
          (plus-IsReduced i.state change r) rs.0 rs.1)

  -- Integration inverts differentiation: from the changes it gives back each value of a stream of
  -- reduced Z-sets, up to the order of slots.
  pub integrate-differentiate :
      (ds : List (ZSet A))
      → All IsReduced ds
      → Each ◌≈◌
          (outputs integrate new_integration (outputs differentiate new_differentiation ds))
          ds
  integrate-differentiate ds rs =
      integrate_from new_integration new_differentiation ds (λ a. refl) empty-IsReduced
        empty-IsReduced rs

  outputs-delay :
      (s : Delay A) (ds : List (ZSet A)) (d : ZSet A)
      → outputs delay s (ds ++ d ∷ []) ≡ s.previous ∷ ds
  unfolding delay
  outputs-delay s [] d = refl
  outputs-delay s (x ∷ xs) d = ap (◌∷◌ s.previous) (outputs-delay (record { previous = x }) xs d)
