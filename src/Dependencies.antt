-- ===== src/Dependencies.antt =====
-- include/dbsp_cdc.hpp, DependencyGraph: which views depend on which tables and views. A set of names is
-- a list without repetitions.
pub mod Sets
pub mod Paths
pub mod Explored
pub mod Kept
pub mod Search
pub mod Consistent
pub mod Acyclic
pub mod Kahn
pub mod Order
use duck_dbsp.Prelude.{
  ℕ, zero, suc, ◌+◌, Bool, true, false, List, [], ◌∷◌, ◌++◌, Option, none, some, if◌then◌else◌, ltb,
  length,
}
use duck_dbsp.Prelude.Int.{ℤ, pos, ◌+ℤ◌, ◌-ℤ◌, ◌==ℤ◌}
use duck_dbsp.Prelude.Equality.{Eq, ◌==◌}
use duck_dbsp.Umap
use duck_dbsp.Umap.{Umap}

pub record DependencyGraph {ℓ} (N : Type ℓ) : Type ℓ where
  -- node -> what it depends on
  pub dependencies : Umap N (List N)
  -- node -> what depends on it
  pub dependents : Umap N (List N)

module _ {ℓ} {N : Type ℓ} where
  abbrev pub new_graph : DependencyGraph N
  new_graph = record { dependencies = []; dependents = [] }

module _ {ℓ} {N : Type ℓ} ⦃en : Eq N⦄ where
  unfoldable pub times : N → List N → ℕ
  times x [] = 0
  times x (y ∷ ys) = (if y == x then 1 else 0) + times x ys

  -- `set.count(x)`
  abbrev pub member : N → List N → Bool
  member x xs = ltb 0 (times x xs)

  abbrev pub set_insert : N → List N → List N
  set_insert x xs = if member x xs then xs else xs ++ (x ∷ [])

  unfoldable pub set_erase : N → List N → List N
  set_erase x [] = []
  set_erase x (y ∷ ys) = if y == x then ys else y ∷ set_erase x ys

  -- The set of a node, empty if the map has none.
  abbrev pub direct : Umap N (List N) → N → List N
  direct m node = Umap.or_default [] (Umap.find node m)

  unfoldable pub add_dependency : N → N → DependencyGraph N → DependencyGraph N
  add_dependency dependent dependency g = record {
    dependencies = Umap.update [] dependent (set_insert dependency) g.dependencies;
    dependents = Umap.update [] dependency (set_insert dependent) g.dependents;
  }

  -- `m[key].erase(node)` for each key in turn.
  unfoldable pub erase_from : N → List N → Umap N (List N) → Umap N (List N)
  unfolding set_erase
  erase_from node [] m = m
  erase_from node (key ∷ keys) m = erase_from node keys (Umap.update [] key (set_erase node) m)

  unfoldable pub remove_node : N → DependencyGraph N → DependencyGraph N
  unfolding erase_from
  remove_node node g =
      let dependents = erase_from node (direct g.dependencies node) g.dependents in
      let dependencies = Umap.erase node g.dependencies in
      record {
        dependencies = erase_from node (direct dependents node) dependencies;
        dependents = Umap.erase node dependents;
      }

  unfoldable pub get_dependencies : N → DependencyGraph N → List N
  get_dependencies node g = direct g.dependencies node

  -- The nodes that have not been visited.
  unfoldable pub unvisited : List N → List N → List N
  unvisited visited [] = []
  unvisited visited (dep ∷ deps) =
      let rest = unvisited visited deps in if member dep visited then rest else dep ∷ rest

  -- The loop of `get_all_dependents` over its queue; `visited` and the result hold the same nodes. A node
  -- is visited once, so the edges bound the rounds.
  unfoldable pub search_loop : ℕ → Umap N (List N) → List N → List N → List N
  unfolding unvisited
  search_loop zero m queue visited = visited
  search_loop (suc fuel) m [] visited = visited
  search_loop (suc fuel) m (current ∷ queue) visited =
      let next = visited ++ (current ∷ []) in
      let skipped = search_loop fuel m queue visited in
      let taken = search_loop fuel m (queue ++ unvisited next (direct m current)) next in
      if member current visited then skipped else taken

  unfoldable pub edge_count : Umap N (List N) → ℕ
  edge_count [] = 0
  edge_count ((node, deps) ∷ m) = length deps + edge_count m

  unfoldable pub get_all_dependents : N → DependencyGraph N → List N
  unfolding search_loop
  get_all_dependents node g =
      let start = direct g.dependents node in
      search_loop (length start + edge_count g.dependents) g.dependents start []

  -- The loop of `would_create_cycle`, which looks for `target`.
  unfoldable pub cycle_loop : ℕ → Umap N (List N) → N → List N → List N → Bool
  cycle_loop zero m target queue visited = false
  cycle_loop (suc fuel) m target [] visited = false
  cycle_loop (suc fuel) m target (current ∷ queue) visited =
      let skipped = cycle_loop fuel m target queue visited in
      let taken =
        cycle_loop fuel m target (queue ++ direct m current) (visited ++ (current ∷ [])) in
      if current == target then true else if member current visited then skipped else taken

  unfoldable pub would_create_cycle : N → N → DependencyGraph N → Bool
  unfolding cycle_loop
  would_create_cycle dependent dependency g =
      cycle_loop (1 + edge_count g.dependents) g.dependents dependency (dependent ∷ []) []

  -- The nodes in turn that no changed node is and that are not there yet.
  unfoldable pub add_affected : List N → List N → List N → List N
  add_affected changed [] affected = affected
  add_affected changed (dep ∷ deps) affected =
      add_affected changed deps (if member dep changed then affected else set_insert dep affected)

  unfoldable pub affected_nodes : List N → List N → DependencyGraph N → List N → List N
  unfolding add_affected get_all_dependents
  affected_nodes changed [] g affected = affected
  affected_nodes changed (node ∷ nodes) g affected =
      affected_nodes changed nodes g (add_affected changed (get_all_dependents node g) affected)

  unfoldable pub zero_degrees : List N → Umap N ℤ → Umap N ℤ
  zero_degrees [] degrees = degrees
  zero_degrees (node ∷ nodes) degrees =
      zero_degrees nodes (Umap.update (pos 0) node (λ _. pos 0) degrees)

  -- Only the dependencies inside the affected set count.
  unfoldable pub count_inside : List N → N → List N → Umap N ℤ → Umap N ℤ
  count_inside affected node [] degrees = degrees
  count_inside affected node (dep ∷ deps) degrees =
      count_inside affected node deps (
        if member dep affected then Umap.update (pos 0) node (λ d. d +ℤ pos 1) degrees else degrees)

  unfoldable pub in_degrees : List N → List N → DependencyGraph N → Umap N ℤ → Umap N ℤ
  unfolding count_inside
  in_degrees affected [] g degrees = degrees
  in_degrees affected (node ∷ nodes) g degrees =
      in_degrees affected nodes g (count_inside affected node (direct g.dependencies node) degrees)

  unfoldable pub without_degree : Umap N ℤ → List N
  without_degree [] = []
  without_degree ((node, degree) ∷ degrees) =
      let rest = without_degree degrees in if degree ==ℤ pos 0 then node ∷ rest else rest

  abbrev pub degree_of : N → Umap N ℤ → ℤ
  degree_of node degrees = Umap.or_default (pos 0) (Umap.find node degrees)

  abbrev pub has_degree : N → Umap N ℤ → Bool
  has_degree node degrees = elim (Umap.find node degrees) [ none ↦ false | some d ↦ true ]

  -- The decrements after a node, and the queue.
  unfoldable pub lower_degrees : List N → Umap N ℤ × List N → Umap N ℤ × List N
  lower_degrees [] s = s
  lower_degrees (dep ∷ deps) (degrees, queue) =
      let lowered = Umap.update (pos 0) dep (λ d. d -ℤ pos 1) degrees in
      lower_degrees deps (
        if has_degree dep degrees
        then (lowered, if degree_of dep lowered ==ℤ pos 0 then queue ++ (dep ∷ []) else queue)
        else (degrees, queue))

  -- A node enters the queue once, so the affected nodes bound the rounds.
  unfoldable pub kahn_loop : ℕ → Umap N (List N) → Umap N ℤ → List N → List N → List N
  unfolding lower_degrees
  kahn_loop zero m degrees queue result = result
  kahn_loop (suc fuel) m degrees [] result = result
  kahn_loop (suc fuel) m degrees (current ∷ queue) result =
      let (degrees', queue') = lower_degrees (direct m current) (degrees, queue) in
      kahn_loop fuel m degrees' queue' (result ++ (current ∷ []))

  unfoldable pub topological_order : List N → DependencyGraph N → List N
  unfolding affected_nodes zero_degrees in_degrees without_degree kahn_loop
  topological_order changed g =
      let affected = affected_nodes changed changed g [] in
      let degrees = in_degrees affected affected g (zero_degrees affected []) in
      kahn_loop (length affected) g.dependents degrees (without_degree degrees) []
