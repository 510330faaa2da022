-- ===== src/Dependencies/Explored.antt =====
-- include/dbsp_cdc.hpp, DependencyGraph: the search loops leave no node unexplored.
use duck_dbsp.Prelude.{
  ℕ, zero, suc, ◌+◌, ◌≤◌, ◌<◌, ◌≡◌, inl, inr, false, List, [], ◌∷◌, ◌++◌, length, length-append,
  Bool-cases, arith,
}
use duck_dbsp.Prelude.Equality.{Eq, ◌==◌}
use duck_dbsp.Umap.{Umap}
use duck_dbsp.Dependencies.{times, member, direct, unvisited, search_loop, cycle_loop}
use duck_dbsp.Dependencies.Sets.{
  ◌∈◌, IsDistinct, times-append, times-snoc, times-unvisited, length-unvisited-le, edges_left,
  edges_left-visit,
}
use duck_dbsp.Dependencies.Paths.{Closed}

module _ {ℓ} {N : Type ℓ} ⦃en : Eq N⦄ (m : Umap N (List N)) where
  -- Every node after one of the set is in the set or in the queue.
  abbrev pub Explored : List N → List N → Type ℓ
  Explored visited queue =
      (u v : N) → u ∈ visited → v ∈ direct m u → 0 < times v visited + times v queue

  abbrev pub Covers : List N → List N → List N → Type ℓ
  Covers result visited queue = (v : N) → 0 < times v visited + times v queue → v ∈ result

  Explored-skip :
      (visited queue : List N) (x : N)
      → x ∈ visited
      → Explored visited (x ∷ queue)
      → Explored visited queue
  unfolding times
  Explored-skip visited queue x h e u v hu hv = ground (arith, e u v hu hv, en.equal_iff x v)

  Covers-skip :
      (result visited queue : List N) (x : N)
      → x ∈ visited
      → Covers result visited queue
      → Covers result visited (x ∷ queue)
  unfolding times
  Covers-skip result visited queue x h c v hv = c v (ground (arith, hv, en.equal_iff x v))

  -- The queue grows by all the nodes after the visited one that have not been visited.
  Explored-visit :
      (visited queue : List N) (x : N) (deps : List N)
      → ((v : N) → v ∈ direct m x → 0 < times v deps + times v (visited ++ (x ∷ [])))
      → Explored visited (x ∷ queue)
      → Explored (visited ++ (x ∷ [])) (queue ++ deps)
  unfolding times
  Explored-visit visited queue x deps new e u v hu hv = elim (Bool-cases (x == u)) [
    | inl hit ↦
        let here : v ∈ direct m x = rw ((en.equal_iff x u).0 hit) hv in
        ground (arith, new v here, times-snoc v x visited, times-append v queue deps)
    | inr miss ↦ ground (
      arith,
      times-snoc v x visited,
      times-append v queue deps,
      e u v (ground (arith, times-snoc u x visited, hu)) hv,
    )
  ]

  Covers-visit :
      (result visited queue : List N) (x : N) (deps : List N)
      → Covers result (visited ++ (x ∷ [])) (queue ++ deps)
      → Covers result visited (x ∷ queue)
  unfolding times
  Covers-visit result visited queue x deps c v hv =
      c v (ground (arith, hv, times-snoc v x visited, times-append v queue deps))

  abbrev fresh : List N → N → List N
  fresh visited x = unvisited (visited ++ (x ∷ [])) (direct m x)

  fresh_covers :
      (visited : List N) (x v : N)
      → v ∈ direct m x
      → 0 < times v (fresh visited x) + times v (visited ++ (x ∷ []))
  fresh_covers visited x v h = ground (arith, times-unvisited v (visited ++ (x ∷ [])) (direct m x))

  -- A set with nothing left to explore.
  Explored-nil :
      (visited : List N) → Explored visited [] → Closed m visited × Covers visited visited []
  unfolding times
  Explored-nil visited e = (λ u v hu hv. omega (arith, e u v hu hv), λ v hv. omega (arith, hv))

  pub Explored-start : (queue : List N) → Explored [] queue
  unfolding times
  Explored-start queue u v hu hv = absurd (omega (arith, hu))

  pub search_loop-IsDistinct :
      (fuel : ℕ) (queue visited : List N)
      → IsDistinct visited
      → IsDistinct (search_loop fuel m queue visited)
  unfolding search_loop
  search_loop-IsDistinct zero queue visited d = d
  search_loop-IsDistinct (suc fuel) [] visited d = d
  search_loop-IsDistinct (suc fuel) (x ∷ queue) visited d = elim (Bool-cases (member x visited)) [
    | inl old ↦ rw old (search_loop-IsDistinct fuel queue visited d)
    | inr new ↦ rw new (
        search_loop-IsDistinct fuel (queue ++ fresh visited x) (visited ++ (x ∷ []))
          (λ v. ground (arith, d v, times-snoc v x visited, en.equal_iff x v)))
  ]

  pub search_loop_complete :
      (fuel : ℕ) (queue visited : List N)
      → length queue + edges_left m visited ≤ fuel
      → Explored visited queue
      → Closed m (search_loop fuel m queue visited)
        × Covers (search_loop fuel m queue visited) visited queue
  unfolding search_loop
  search_loop_complete zero [] visited h e = Explored-nil visited e
  search_loop_complete zero (x ∷ queue) visited h e = absurd (omega (arith, h))
  search_loop_complete (suc fuel) [] visited h e = Explored-nil visited e
  search_loop_complete (suc fuel) (x ∷ queue) visited h e = elim (Bool-cases (member x visited)) [
    | inl old ↦
        let seen : x ∈ visited = ground arith in
        let (closed, covers) =
          search_loop_complete fuel queue visited (omega (arith, h))
            (Explored-skip visited queue x seen e) in
        rw old (closed, Covers-skip _ visited queue x seen covers)
    | inr new ↦
        let unseen : times x visited ≡ 0 = ground arith in
        let deps = fresh visited x in
        let (closed, covers) =
          search_loop_complete fuel (queue ++ deps) (visited ++ (x ∷ []))
            (omega (
              arith,
              h,
              length-append queue deps,
              length-unvisited-le (visited ++ (x ∷ [])) (direct m x),
              edges_left-visit m visited x unseen,
            ))
            (Explored-visit visited queue x deps (fresh_covers visited x) e) in
        rw new (closed, Covers-visit _ visited queue x deps covers)
  ]

  -- With the edges bounding the rounds, a search that does not meet its target ends with a closed set
  -- without it.
  pub cycle_loop_complete :
      (target : N) (fuel : ℕ) (queue visited : List N)
      → length queue + edges_left m visited ≤ fuel
      → Explored visited queue
      → times target visited ≡ 0
      → cycle_loop fuel m target queue visited ≡ false
      → (found : List N) × Closed m found × Covers found visited queue × (times target found ≡ 0)
  unfolding cycle_loop
  cycle_loop_complete target zero [] visited h e t missed =
      let (closed, covers) = Explored-nil visited e in (visited, closed, covers, t)
  cycle_loop_complete target zero (x ∷ queue) visited h e t missed = absurd (omega (arith, h))
  cycle_loop_complete target (suc fuel) [] visited h e t missed =
      let (closed, covers) = Explored-nil visited e in (visited, closed, covers, t)
  cycle_loop_complete target (suc fuel) (x ∷ queue) visited h e t missed =
      elim (Bool-cases (x == target)) [
        | inl hit ↦ absurd (ground (arith, missed, hit))
        | inr miss ↦ elim (Bool-cases (member x visited)) [
          | inl old ↦
              let seen : x ∈ visited = ground arith in
              let (found, closed, covers, away) =
                cycle_loop_complete target fuel queue visited (omega (arith, h))
                  (Explored-skip visited queue x seen e) t (rw (miss, old) at missed) in
              (found, closed, Covers-skip found visited queue x seen covers, away)
          | inr new ↦
              let unseen : times x visited ≡ 0 = ground arith in
              let (found, closed, covers, away) =
                cycle_loop_complete target fuel (queue ++ direct m x) (visited ++ (x ∷ []))
                  (omega (
                    arith,
                    h,
                    length-append queue (direct m x),
                    edges_left-visit m visited x unseen,
                  ))
                  (Explored-visit visited queue x (direct m x) (λ v hv. omega (arith, hv)) e)
                  (ground (arith, times-snoc target x visited)) (rw (miss, new) at missed) in
              (found, closed, Covers-visit found visited queue x (direct m x) covers, away)
        ]
      ]
