-- ===== src/Dependencies/Acyclic.antt =====
-- include/dbsp_cdc.hpp, DependencyGraph: the test before a new edge keeps the graph free of cycles.
use duck_dbsp.Prelude.{
  ℕ, ◌+◌, ◌<◌, ◌≡◌, ◌↔◌, inl, inr, false, ◌&&◌, if◌then◌else◌, ap, Bool-cases, arith,
}
use duck_dbsp.Prelude.Equality.{Eq, ◌==◌}
use duck_dbsp.Umap
use duck_dbsp.Umap.{Umap}
use duck_dbsp.Dependencies.{
  DependencyGraph, new_graph, times, member, direct, add_dependency, remove_node,
  would_create_cycle,
}
use duck_dbsp.Dependencies.Sets.{◌∈◌}
use duck_dbsp.Dependencies.Paths.{Reaches, edge, step, SameOrReaches}
use duck_dbsp.Dependencies.Search.{would_create_cycle_complete, would_create_cycle-Reaches}
use duck_dbsp.Dependencies.Consistent.{IsConsistent, times-direct-insert, remove_node-IsConsistent}

module _ {ℓ} {N : Type ℓ} ⦃en : Eq N⦄ where
  -- Every edge goes up by a rank, so no path comes back to its start.
  pub record IsAcyclic (g : DependencyGraph N) : Type ℓ where
    pub rank : N → ℕ
    pub rises : (u v : N) → v ∈ direct g.dependents u → rank u < rank v

  Reaches-rank :
      (g : DependencyGraph N) (a : IsAcyclic g) (u v : N)
      → Reaches g.dependents u v
      → a.rank u < a.rank v
  Reaches-rank g a u v (edge h) = a.rises u v h
  Reaches-rank g a u v (step {v = w} r h) = omega (arith, Reaches-rank g a u w r, a.rises w v h)

  -- In an acyclic graph no node reaches itself.
  pub IsAcyclic-Reaches :
      (g : DependencyGraph N) (u : N) → IsAcyclic g → Reaches g.dependents u u → ⊥
  IsAcyclic-Reaches g u a r = omega (arith, Reaches-rank g a u u r)

  module _ (dependent dependency : N) (g : DependencyGraph N) (c : IsConsistent g) where
    abbrev after : DependencyGraph N
    after = add_dependency dependent dependency g

    times-dependents-after :
        (u v : N)
        → times v (direct after.dependents u)
          ≡ (if (dependency == u) && (dependent == v) then 1 else times v (direct g.dependents u))
    unfolding add_dependency
    times-dependents-after u v =
        times-direct-insert dependency dependent u v g.dependents c.dependents_sets

    after-IsAcyclic :
        IsAcyclic g → would_create_cycle dependent dependency g ≡ false → IsAcyclic after
    after-IsAcyclic a missed =
        let (found, closed, here, away) =
          would_create_cycle_complete dependent dependency g missed in
        record {
          rank = λ x. a.rank x + (if member x found then a.rank dependency + 1 else 0);
          rises = λ u v h. ground (
            arith,
            h,
            times-dependents-after u v,
            en.equal_iff dependency u,
            en.equal_iff dependent v,
            a.rises u v,
            closed u v,
          );
        }

    Reaches-after : (u v : N) → Reaches g.dependents u v → Reaches after.dependents u v
    Reaches-after u v (edge h) = edge (ground (arith, h, times-dependents-after u v))
    Reaches-after u v (step {v = w} r h) =
        step (Reaches-after u w r) (ground (arith, h, times-dependents-after w v))

    new_edge : dependent ∈ direct after.dependents dependency
    new_edge = ground (
      arith,
      times-dependents-after dependency dependent,
      en.equal_iff dependency dependency,
      en.equal_iff dependent dependent,
    )

    after_cycle : SameOrReaches g.dependents dependent dependency → IsAcyclic after → ⊥
    after_cycle (inl e) a = omega (arith, a.rises dependency dependent new_edge, ap a.rank e)
    after_cycle (inr r) a = omega (
      arith,
      a.rises dependency dependent new_edge,
      Reaches-rank after a dependent dependency (Reaches-after dependent dependency r),
    )

    -- A new edge keeps an acyclic graph acyclic exactly if the test says that it makes no cycle.
    pub add_dependency-IsAcyclic :
        IsAcyclic g
        → (would_create_cycle dependent dependency g ≡ false)
          ↔ IsAcyclic (add_dependency dependent dependency g)
    add_dependency-IsAcyclic a = (
      after-IsAcyclic a,
      λ b. elim (Bool-cases (would_create_cycle dependent dependency g)) [
        | inl met ↦
            absurd (after_cycle ((would_create_cycle-Reaches dependent dependency g).0 met) b)
        | inr missed ↦ missed
      ],
    )

  -- Removing a node keeps an acyclic graph acyclic.
  pub remove_node-IsAcyclic :
      (node : N) (g : DependencyGraph N)
      → IsConsistent g
      → IsAcyclic g
      → IsAcyclic (remove_node node g)
  remove_node-IsAcyclic node g c a = record {
    rank = a.rank;
    rises = λ u v h. ground (arith, h, (remove_node-IsConsistent node g c).1 u v, a.rises u v);
  }

  pub new_graph-IsAcyclic : IsAcyclic new_graph
  unfolding times Umap.find
  new_graph-IsAcyclic = record { rank = λ x. 0; rises = λ u v h. absurd (omega (arith, h)) }
