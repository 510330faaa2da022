-- ===== src/Dependencies/Kept.antt =====
-- include/dbsp_cdc.hpp, DependencyGraph: the search loops leave what the edges keep.
use duck_dbsp.Prelude.{ℕ, zero, suc, ◌≡◌, inl, inr, true, List, [], ◌∷◌, ◌++◌, Bool-cases, arith}
use duck_dbsp.Prelude.Equality.{Eq, ◌==◌}
use duck_dbsp.Umap.{Umap}
use duck_dbsp.Dependencies.{times, member, direct, unvisited, search_loop, cycle_loop}
use duck_dbsp.Dependencies.Sets.{◌∈◌, times-append, times-unvisited}

-- What holds of the queue and is kept by the edges.
module _ {ℓ κ} {N : Type ℓ} ⦃en : Eq N⦄ (m : Umap N (List N)) (P : N → Type κ)
    (keep : (u v : N) → P u → v ∈ direct m u → P v) where
  abbrev pub AllIn : List N → Type (ℓ ⊔ κ)
  AllIn xs = (v : N) → v ∈ xs → P v

  AllIn-head : (x : N) (queue : List N) → AllIn (x ∷ queue) → P x
  unfolding times
  AllIn-head x queue q = q x (ground (arith, en.equal_iff x x))

  AllIn-tail : (x : N) (queue : List N) → AllIn (x ∷ queue) → AllIn queue
  unfolding times
  AllIn-tail x queue q v hv = q v (omega (arith, hv))

  AllIn-append : (xs ys : List N) → AllIn xs → AllIn ys → AllIn (xs ++ ys)
  AllIn-append xs ys p q v hv = elim (Bool-cases (member v xs)) [
    | inl here ↦ p v (ground (arith, here))
    | inr there ↦ q v (ground (arith, there, hv, times-append v xs ys))
  ]

  pub AllIn-one : (x : N) → P x → AllIn (x ∷ [])
  unfolding times
  AllIn-one x p v hv = elim (Bool-cases (x == v)) [
    | inl hit ↦ rw (← (en.equal_iff x v).0 hit) p
    | inr miss ↦ absurd (ground (arith, hv))
  ]

  AllIn-unvisited : (visited deps : List N) → AllIn deps → AllIn (unvisited visited deps)
  AllIn-unvisited visited deps d v hv = d v (ground (arith, hv, times-unvisited v visited deps))

  pub search_loop_sound :
      (fuel : ℕ) (queue visited : List N)
      → AllIn queue
      → AllIn visited
      → AllIn (search_loop fuel m queue visited)
  unfolding search_loop
  search_loop_sound zero queue visited q d = d
  search_loop_sound (suc fuel) [] visited q d = d
  search_loop_sound (suc fuel) (x ∷ queue) visited q d =
      let next = visited ++ (x ∷ []) in
      let p = AllIn-head x queue q in
      let rest = AllIn-tail x queue q in
      elim (Bool-cases (member x visited)) [
        | inl old ↦ rw old (search_loop_sound fuel queue visited rest d)
        | inr new ↦ rw new (
            search_loop_sound fuel (queue ++ unvisited next (direct m x)) next
              (AllIn-append queue _ rest
                (AllIn-unvisited next (direct m x) (λ v hv. keep x v p hv)))
              (AllIn-append visited _ d (AllIn-one x p)))
      ]

  pub cycle_loop_sound :
      (target : N) (fuel : ℕ) (queue visited : List N)
      → AllIn queue
      → cycle_loop fuel m target queue visited ≡ true
      → P target
  unfolding cycle_loop
  cycle_loop_sound target zero queue visited q met = cc
  cycle_loop_sound target (suc fuel) [] visited q met = cc
  cycle_loop_sound target (suc fuel) (x ∷ queue) visited q met =
      let p = AllIn-head x queue q in
      let rest = AllIn-tail x queue q in
      elim (Bool-cases (x == target)) [
        | inl hit ↦ rw (← (en.equal_iff x target).0 hit) p
        | inr miss ↦ elim (Bool-cases (member x visited)) [
          | inl old ↦ cycle_loop_sound target fuel queue visited rest (rw (miss, old) at met)
          | inr new ↦
              cycle_loop_sound target fuel (queue ++ direct m x) (visited ++ (x ∷ []))
                (AllIn-append queue _ rest (λ v hv. keep x v p hv)) (rw (miss, new) at met)
        ]
      ]
