-- ===== src/Dependencies/Sets.antt =====
-- include/dbsp_cdc.hpp, DependencyGraph: the sets of nodes, seen by how often a node stands in the list.
use duck_dbsp.Prelude.{
  ℕ, suc, ◌+◌, ◌≤◌, ◌<◌, ◌≡◌, List, [], ◌∷◌, ◌++◌, if◌then◌else◌, length, arith,
}
use duck_dbsp.Prelude.Equality.{Eq, ◌==◌}
use duck_dbsp.Umap
use duck_dbsp.Umap.{Umap}
use duck_dbsp.Umap.Sums.{find-update}
use duck_dbsp.Dependencies.{times, member, set_insert, set_erase, direct, unvisited, edge_count}

module _ {ℓ} {N : Type ℓ} ⦃en : Eq N⦄ where
  infix 50 ◌∈◌
  abbrev pub ◌∈◌ : N → List N → Type 0
  x ∈ xs = 0 < times x xs

  -- No node stands twice in the list.
  abbrev pub IsDistinct : List N → Type ℓ
  IsDistinct xs = (x : N) → times x xs ≤ 1

  pub times-append : (x : N) (xs ys : List N) → times x (xs ++ ys) ≡ times x xs + times x ys
  unfolding times
  times-append x [] ys = omega arith
  times-append x (y ∷ xs) ys = omega (arith, times-append x xs ys)

  pub times-snoc :
      (x y : N) (xs : List N) → times x (xs ++ (y ∷ [])) ≡ times x xs + (if y == x then 1 else 0)
  unfolding times
  times-snoc x y xs = omega (arith, times-append x xs (y ∷ []))

  pub times-set_insert :
      (x y : N) (xs : List N)
      → times x (set_insert y xs)
        ≡ times x xs + (if y == x then (if member x xs then 0 else 1) else 0)
  times-set_insert x y xs = ground (arith, times-snoc x y xs, en.equal_iff y x)

  pub times-set_erase :
      (x y : N) (xs : List N)
      → IsDistinct xs
      → times x (set_erase y xs) ≡ (if y == x then 0 else times x xs)
  unfolding times set_erase
  times-set_erase x y [] d = ground arith
  times-set_erase x y (z ∷ xs) d = ground (
    arith,
    en.equal_iff z y,
    en.equal_iff z x,
    en.equal_iff y x,
    d x,
    d y,
    times-set_erase x y xs (λ w. ground (arith, d w)),
  )

  length-set_erase : (x : N) (xs : List N) → x ∈ xs → suc (length (set_erase x xs)) ≡ length xs
  unfolding times set_erase
  length-set_erase x [] h = absurd (omega (arith, h))
  length-set_erase x (y ∷ xs) h = ground (arith, h, length-set_erase x xs)

  -- A list without repetitions is no longer than one that holds its nodes.
  pub length-le_of_subset :
      (xs ys : List N)
      → IsDistinct xs
      → IsDistinct ys
      → ((x : N) → x ∈ xs → x ∈ ys)
      → length xs ≤ length ys
  unfolding times
  length-le_of_subset [] ys d e h = omega arith
  length-le_of_subset (x ∷ xs) ys d e h =
      let here : x ∈ ys = h x (ground (arith, en.equal_iff x x)) in
      let rest =
        length-le_of_subset xs (set_erase x ys) (λ z. ground (arith, d z))
          (λ z. ground (arith, times-set_erase z x ys e, e z))
          (λ z i. ground (arith, i, times-set_erase z x ys e, d z, h z)) in
      omega (arith, rest, length-set_erase x ys here)

  pub times-unvisited :
      (x : N) (visited deps : List N)
      → times x (unvisited visited deps) ≡ (if member x visited then 0 else times x deps)
  unfolding times unvisited
  times-unvisited x visited [] = ground arith
  times-unvisited x visited (dep ∷ deps) =
      ground (arith, en.equal_iff dep x, times-unvisited x visited deps)

  pub length-unvisited-le : (visited deps : List N) → length (unvisited visited deps) ≤ length deps
  unfolding unvisited
  length-unvisited-le visited [] = omega arith
  length-unvisited-le visited (dep ∷ deps) = ground (arith, length-unvisited-le visited deps)

  -- The edges out of the nodes that have not been visited.
  unfoldable pub edges_left : Umap N (List N) → List N → ℕ
  edges_left [] visited = 0
  edges_left ((node, deps) ∷ m) visited =
      (if member node visited then 0 else length deps) + edges_left m visited

  pub edges_left-le-edge_count :
      (m : Umap N (List N)) (visited : List N) → edges_left m visited ≤ edge_count m
  unfolding edges_left edge_count
  edges_left-le-edge_count [] visited = omega arith
  edges_left-le-edge_count ((node, deps) ∷ m) visited =
      ground (arith, edges_left-le-edge_count m visited)

  edges_left_mono :
      (m : Umap N (List N)) (visited : List N) (x : N)
      → edges_left m (visited ++ (x ∷ [])) ≤ edges_left m visited
  unfolding edges_left
  edges_left_mono [] visited x = omega arith
  edges_left_mono ((node, deps) ∷ m) visited x =
      ground (arith, edges_left_mono m visited x, times-snoc node x visited)

  -- A visit spends the edges out of its node.
  pub edges_left-visit :
      (m : Umap N (List N)) (visited : List N) (x : N)
      → times x visited ≡ 0
      → edges_left m (visited ++ (x ∷ [])) + length (direct m x) ≤ edges_left m visited
  unfolding edges_left Umap.find
  edges_left-visit [] visited x h = omega arith
  edges_left-visit ((node, deps) ∷ m) visited x h = ground (
    arith,
    en.equal_iff node x,
    times-snoc node x visited,
    edges_left_mono m visited x,
    edges_left-visit m visited x h,
  )

  pub direct-update :
      (u v : N) (f : List N → List N) (m : Umap N (List N))
      → direct (Umap.update [] u f m) v ≡ (if u == v then f (direct m v) else direct m v)
  direct-update u v f m = ground (arith, find-update [] u v f m, en.equal_iff u v)
