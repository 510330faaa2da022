-- ===== src/Dependencies/Search.antt =====
-- include/dbsp_cdc.hpp, DependencyGraph: `get_all_dependents` and `would_create_cycle` as searches.
use duck_dbsp.Prelude.{
  ◌≡◌, ◌↔◌, ◌⊎◌, inl, inr, refl, ap, true, false, List, [], ◌∷◌, Bool-cases, arith,
}
use duck_dbsp.Prelude.Equality.{Eq}
use duck_dbsp.Dependencies.{DependencyGraph, times, direct, get_all_dependents, would_create_cycle}
use duck_dbsp.Dependencies.Sets.{◌∈◌, IsDistinct, edges_left-le-edge_count}
use duck_dbsp.Dependencies.Paths.{
  Reaches, edge, step, SameOrReaches, SameOrReaches-step, Closed, Reaches-Closed,
}
use duck_dbsp.Dependencies.Explored.{
  Explored-start, search_loop-IsDistinct, search_loop_complete, cycle_loop_complete,
}
use duck_dbsp.Dependencies.Kept.{AllIn-one, search_loop_sound, cycle_loop_sound}

module _ {ℓ} {N : Type ℓ} ⦃en : Eq N⦄ where
  -- The result of a search from a node has no repetitions and holds exactly the nodes that the node
  -- reaches through dependents.
  pub get_all_dependents-Reaches :
      (node : N) (g : DependencyGraph N)
      → IsDistinct (get_all_dependents node g)
        × ((v : N) → v ∈ get_all_dependents node g ↔ Reaches g.dependents node v)
  unfolding get_all_dependents times
  get_all_dependents-Reaches node g =
      let m = g.dependents in
      let start = direct m node in
      let none_yet : (v : N) → v ∈ [] → Reaches m node v = λ v hv. absurd (omega (arith, hv)) in
      let enough = edges_left-le-edge_count m [] in
      let (closed, covers) =
        search_loop_complete m _ start [] (omega (arith, enough)) (Explored-start m start) in
      (
        search_loop-IsDistinct m _ start [] (λ v. omega arith),
        λ v. (
          search_loop_sound m (Reaches m node) (λ u w p e. step p e) _ start [] (λ w hw. edge hw)
              none_yet v,
          Reaches-Closed m _ node v closed (λ w hw. covers w (omega (arith, hw))),
        ),
      )

  would_create_cycle_sound :
      (u v : N) (g : DependencyGraph N)
      → would_create_cycle u v g ≡ true
      → SameOrReaches g.dependents u v
  unfolding would_create_cycle
  would_create_cycle_sound u v g =
      let m = g.dependents in
      cycle_loop_sound m (SameOrReaches m u) (λ w x p h. inr (SameOrReaches-step m u w x p h)) v _
        (u ∷ []) []
        (AllIn-one m (SameOrReaches m u) (λ w x p h. inr (SameOrReaches-step m u w x p h)) u
          (inl refl))

  pub would_create_cycle_complete :
      (u v : N) (g : DependencyGraph N)
      → would_create_cycle u v g ≡ false
      → (found : List N) × Closed g.dependents found × u ∈ found × (times v found ≡ 0)
  unfolding would_create_cycle times
  would_create_cycle_complete u v g missed =
      let m = g.dependents in
      let enough = edges_left-le-edge_count m [] in
      let (found, closed, covers, away) =
        cycle_loop_complete m v _ (u ∷ []) [] (omega (arith, enough)) (Explored-start m (u ∷ []))
          (omega arith) missed in
      (found, closed, covers u (ground (arith, en.equal_iff u u)), away)

  would_create_cycle-avoids :
      (u v : N) (g : DependencyGraph N)
      → would_create_cycle u v g ≡ false
      → SameOrReaches g.dependents u v
      → ⊥
  would_create_cycle-avoids u v g missed (inl e) =
      let (found, closed, here, away) = would_create_cycle_complete u v g missed in
      omega (arith, here, ap (λ (x : N). times x found) e, away)
  would_create_cycle-avoids u v g missed (inr r) =
      let (found, closed, here, away) = would_create_cycle_complete u v g missed in
      omega (arith, Reaches-Closed g.dependents found u v closed (λ w. closed u w here) r, away)

  -- The test before a new edge is true exactly if the edge would close a cycle: the dependency is the
  -- dependent itself, or is reached from it through dependents.
  pub would_create_cycle-Reaches :
      (dependent dependency : N) (g : DependencyGraph N)
      → (would_create_cycle dependent dependency g ≡ true)
        ↔ ((dependent ≡ dependency) ⊎ Reaches g.dependents dependent dependency)
  would_create_cycle-Reaches u v g = (
    would_create_cycle_sound u v g,
    λ r. elim (Bool-cases (would_create_cycle u v g)) [
      | inl met ↦ met
      | inr missed ↦ absurd (would_create_cycle-avoids u v g missed r)
    ],
  )
