-- ===== src/Tests/Dependencies.antt =====
-- Views 10, 20 and 30 over the tables 1 and 2: 10 reads 1, 20 reads 10 and 2, and 30 reads 10 and 20.
use duck_dbsp.Prelude.{ℕ, ◌≡◌, refl, ◌↔◌, ◌⊎◌, true, false, ◌||◌, List, [], ◌∷◌, if◌then◌else◌}
use duck_dbsp.Prelude.Int.{◌+ℤ◌, ◌-ℤ◌}
use duck_dbsp.Prelude.Equality.{◌==◌, nat_eq}
use duck_dbsp.Umap
use duck_dbsp.Dependencies.{
  DependencyGraph, new_graph, times, direct, edge_count, add_dependency, remove_node,
  get_all_dependents, would_create_cycle, topological_order,
}
use duck_dbsp.Dependencies.Sets.{◌∈◌, IsDistinct}
use duck_dbsp.Dependencies.Paths.{Reaches}
use duck_dbsp.Dependencies.Search.{get_all_dependents-Reaches, would_create_cycle-Reaches}
use duck_dbsp.Dependencies.Consistent.{
  IsConsistent, new_graph-IsConsistent, add_dependency-IsConsistent, remove_node-IsConsistent,
}
use duck_dbsp.Dependencies.Acyclic.{IsAcyclic, new_graph-IsAcyclic, add_dependency-IsAcyclic}
use duck_dbsp.Dependencies.Kahn.{IsOrdered}
use duck_dbsp.Dependencies.Order.{IsAffected, topological_order-IsOrdered}

-- The views by dependent and dependency.
abbrev edges : List (ℕ × ℕ)
edges = (10, 1) ∷ (20, 10) ∷ (20, 2) ∷ (30, 20) ∷ (30, 10) ∷ []

unfoldable graph_of : List (ℕ × ℕ) → DependencyGraph ℕ
unfolding add_dependency
graph_of [] = new_graph
graph_of ((dependent, dependency) ∷ es) = add_dependency dependent dependency (graph_of es)

abbrev views : DependencyGraph ℕ
views = graph_of edges

order_of_views : topological_order (1 ∷ 2 ∷ []) views ≡ 10 ∷ 20 ∷ 30 ∷ []
unfolding topological_order graph_of edge_count times Umap.find Umap.update ◌+ℤ◌ ◌-ℤ◌
order_of_views = refl

order_of_late_table : topological_order (2 ∷ []) views ≡ 20 ∷ 30 ∷ []
unfolding topological_order graph_of edge_count times Umap.find Umap.update ◌+ℤ◌ ◌-ℤ◌
order_of_late_table = refl

cycle_found : would_create_cycle 10 30 views ≡ true
unfolding would_create_cycle graph_of edge_count times Umap.find Umap.update
cycle_found = refl

no_cycle : would_create_cycle 30 1 views ≡ false
unfolding would_create_cycle graph_of edge_count times Umap.find Umap.update
no_cycle = refl

graph_of-IsConsistent : (es : List (ℕ × ℕ)) → IsConsistent (graph_of es)
unfolding graph_of
graph_of-IsConsistent [] = new_graph-IsConsistent
graph_of-IsConsistent ((a, b) ∷ es) = add_dependency-IsConsistent a b _ (graph_of-IsConsistent es)

views-IsAcyclic : IsAcyclic views
unfolding would_create_cycle graph_of edge_count times Umap.find Umap.update
views-IsAcyclic =
    let grow = λ (a b : ℕ) (es : List (ℕ × ℕ)).
      add_dependency-IsAcyclic a b (graph_of es) (graph_of-IsConsistent es) in
    (grow 10 1 ((20, 10) ∷ (20, 2) ∷ (30, 20) ∷ (30, 10) ∷ []) (
        (grow 20 10 ((20, 2) ∷ (30, 20) ∷ (30, 10) ∷ []) (
            (grow 20 2 ((30, 20) ∷ (30, 10) ∷ []) (
                (grow 30 20 ((30, 10) ∷ []) ((grow 30 10 [] new_graph-IsAcyclic).0 refl)).0 refl)).0
              refl)).0
          refl)).0
      refl

topological_order-IsOrdered_example :
    IsOrdered (IsAffected (1 ∷ 2 ∷ []) views) views (topological_order (1 ∷ 2 ∷ []) views)
    × IsDistinct (topological_order (1 ∷ 2 ∷ []) views)
    × ((n : ℕ) → n ∈ topological_order (1 ∷ 2 ∷ []) views ↔ IsAffected (1 ∷ 2 ∷ []) views n)
topological_order-IsOrdered_example =
    topological_order-IsOrdered (1 ∷ 2 ∷ []) views (graph_of-IsConsistent edges) views-IsAcyclic

add_dependency-IsAcyclic_example :
    (would_create_cycle 30 1 views ≡ false) ↔ IsAcyclic (add_dependency 30 1 views)
add_dependency-IsAcyclic_example =
    add_dependency-IsAcyclic 30 1 views (graph_of-IsConsistent edges) views-IsAcyclic

get_all_dependents-Reaches_example :
    IsDistinct (get_all_dependents 1 views)
    × ((v : ℕ) → v ∈ get_all_dependents 1 views ↔ Reaches views.dependents 1 v)
get_all_dependents-Reaches_example = get_all_dependents-Reaches 1 views

would_create_cycle-Reaches_example :
    (would_create_cycle 10 30 views ≡ true) ↔ (◌≡◌ {A = ℕ} 10 30 ⊎ Reaches views.dependents 10 30)
would_create_cycle-Reaches_example = would_create_cycle-Reaches 10 30 views

remove_node-IsConsistent_example :
    IsConsistent (remove_node 20 views)
    × ((u v : ℕ)
        → times v (direct (remove_node 20 views).dependents u)
          ≡ (if (20 == u) || (20 == v) then 0 else times v (direct views.dependents u)))
remove_node-IsConsistent_example = remove_node-IsConsistent 20 views (graph_of-IsConsistent edges)
