-- ===== src/Dependencies/Order.antt =====
-- include/dbsp_cdc.hpp, DependencyGraph: `topological_order` over the affected nodes.
use duck_dbsp.Prelude.{
  ℕ, zero, suc, ◌+◌, ◌<◌, ◌≡◌, ◌↔◌, List, [], ◌∷◌, if◌then◌else◌, length, inl, inr, Bool-cases,
  arith,
}
use duck_dbsp.Prelude.Equality.{Eq, ◌==◌}
use duck_dbsp.Dependencies.{
  DependencyGraph, times, member, direct, set_insert, get_all_dependents, add_affected,
  affected_nodes, without_degree, topological_order,
}
use duck_dbsp.Dependencies.Sets.{◌∈◌, IsDistinct, times-set_insert}
use duck_dbsp.Dependencies.Paths.{Reaches}
use duck_dbsp.Dependencies.Search.{get_all_dependents-Reaches}
use duck_dbsp.Dependencies.Consistent.{IsConsistent}
use duck_dbsp.Dependencies.Acyclic.{IsAcyclic}
use duck_dbsp.Dependencies.Kahn.{
  start_degrees, start_degrees-HasDegrees, start_degrees-UniqueKeys, times-without_degree,
  waiting-eq-zero, IsOrdered, IsOrdered-map, first, HasPlaces, kahn_loop-IsOrdered,
}

module _ {ℓ} {N : Type ℓ} ⦃en : Eq N⦄ where
  times-add_affected :
      (changed deps affected : List N) (n : N)
      → times n (add_affected changed deps affected) ≡ (
          if member n affected
          then times n affected
          else if member n changed
          then 0
          else if member n deps
          then 1
          else 0)
  unfolding times add_affected
  times-add_affected changed [] affected n = ground arith
  times-add_affected changed (dep ∷ deps) affected n = elim (Bool-cases (member dep changed)) [
    | inl skip ↦
        rw skip
          (ground (arith, times-add_affected changed deps affected n, skip, en.equal_iff dep n))
    | inr take ↦ rw take (
        ground (
          arith,
          times-add_affected changed deps (set_insert dep affected) n,
          times-set_insert n dep affected,
          take,
          en.equal_iff dep n,
        ))
  ]

  -- A node that has not changed and that one of the changed nodes reaches.
  abbrev pub IsAffected : List N → DependencyGraph N → N → Type ℓ
  IsAffected changed g n =
      (times n changed ≡ 0) × ((source : N) × (source ∈ changed) × Reaches g.dependents source n)

  module _ (changed : List N) (g : DependencyGraph N) where
    affected_nodes-IsDistinct :
        (nodes affected : List N)
        → IsDistinct affected
        → IsDistinct (affected_nodes changed nodes g affected)
    unfolding affected_nodes
    affected_nodes-IsDistinct [] affected d = d
    affected_nodes-IsDistinct (node ∷ nodes) affected d = affected_nodes-IsDistinct nodes _ (λ n.
        ground (arith, d n, times-add_affected changed (get_all_dependents node g) affected n))

    affected_nodes-keeps :
        (nodes affected : List N) (n : N)
        → n ∈ affected
        → n ∈ affected_nodes changed nodes g affected
    unfolding affected_nodes
    affected_nodes-keeps [] affected n h = h
    affected_nodes-keeps (node ∷ nodes) affected n h =
        affected_nodes-keeps nodes _ n
          (ground (arith, h, times-add_affected changed (get_all_dependents node g) affected n))

    affected_nodes-finds :
        (nodes affected : List N) (source n : N)
        → times n changed ≡ 0
        → source ∈ nodes
        → Reaches g.dependents source n
        → n ∈ affected_nodes changed nodes g affected
    unfolding affected_nodes times
    affected_nodes-finds [] affected source n e i r = absurd (omega (arith, i))
    affected_nodes-finds (node ∷ nodes) affected source n e i r =
        elim (Bool-cases (node == source)) [
          | inl hit ↦
              let from_node : Reaches g.dependents node n =
                rw ((en.equal_iff node source).0 hit) r in
              let reached = ((get_all_dependents-Reaches node g).1 n).1 from_node in
              affected_nodes-keeps nodes _ n (
                ground (
                  arith,
                  e,
                  reached,
                  times-add_affected changed (get_all_dependents node g) affected n,
                ))
          | inr miss ↦ affected_nodes-finds nodes _ source n e (ground (arith, i, miss)) r
        ]

    affected_nodes_sound :
        (nodes affected : List N) (n : N)
        → ((m : N) → m ∈ nodes → m ∈ changed)
        → ((m : N) → m ∈ affected → IsAffected changed g m)
        → n ∈ affected_nodes changed nodes g affected
        → IsAffected changed g n
    unfolding affected_nodes times
    affected_nodes_sound [] affected n s h i = h n i
    affected_nodes_sound (node ∷ nodes) affected n s h i =
        let found = get_all_dependents node g in
        affected_nodes_sound nodes (add_affected changed found affected) n
          (λ m j. s m (omega (arith, j)))
          (λ m j. elim (Bool-cases (member m affected)) [
            | inl old ↦ h m (ground (arith, old))
            | inr new ↦
                let added = times-add_affected changed found affected m in
                let here : m ∈ found = ground (arith, j, new, added) in
                (
                  ground (arith, j, new, added),
                  (
                    node,
                    s node (ground (arith, en.equal_iff node node)),
                    ((get_all_dependents-Reaches node g).1 m).0 here,
                  ),
                )
          ])
          i

    abbrev pub affected : List N
    affected = affected_nodes changed changed g []

    affected_lem : (n : N) → n ∈ affected ↔ IsAffected changed g n
    unfolding times
    affected_lem n = (
      affected_nodes_sound changed [] n (λ m j. j) (λ m j. absurd (omega (arith, j))),
      λ a. affected_nodes-finds changed [] a.1.0 n a.0 a.1.1 a.1.2,
    )

    affected-IsDistinct : IsDistinct affected
    unfolding times
    affected-IsDistinct = affected_nodes-IsDistinct changed [] (λ n. omega arith)

    topological_order-HasPlaces :
        IsConsistent g
        → IsOrdered (λ n. n ∈ affected) g (topological_order changed g)
          × HasPlaces affected g (topological_order changed g) (topological_order changed g)
    unfolding topological_order times
    topological_order-HasPlaces c =
        let degrees = start_degrees-HasDegrees affected g affected-IsDistinct in
        kahn_loop-IsOrdered affected g (length affected) (start_degrees affected g)
          (without_degree (start_degrees affected g)) [] c affected-IsDistinct
          (record {
            counted = degrees;
            places = λ n. ground (
              arith,
              degrees n,
              times-without_degree (start_degrees affected g) n
                  (start_degrees-UniqueKeys affected g),
            );
            ordered = first;
            room = omega arith;
          })

    -- In an acyclic graph every affected node finds its place.
    affected_placed :
        IsConsistent g
        → (a : IsAcyclic g) (bound : ℕ) (n : N) → a.rank n < bound
        → n ∈ affected
        → n ∈ topological_order changed g
    affected_placed c a zero n b i = absurd (omega (arith, b))
    affected_placed c a (suc bound) n b i =
        let order = topological_order changed g in
        let none_left = waiting-eq-zero affected order (direct g.dependencies n) (λ d j inside.
          affected_placed c a bound d
            (omega (arith, a.rises d n (omega (arith, j, c.mirrored d n)), b)) inside) in
        ground (arith, i, none_left, (topological_order-HasPlaces c).1 n)

    -- Of an acyclic graph whose maps mirror each other the order holds every affected node exactly once
    -- and nothing else, each behind all its affected dependencies.
    pub topological_order-IsOrdered :
        IsConsistent g
        → IsAcyclic g
        → IsOrdered (IsAffected changed g) g (topological_order changed g)
          × IsDistinct (topological_order changed g)
          × ((n : N) → n ∈ topological_order changed g ↔ IsAffected changed g n)
    topological_order-IsOrdered c a =
        let (ordered, places) = topological_order-HasPlaces c in
        (
          IsOrdered-map (λ n. (affected_lem n).1) ordered,
          λ n. ground (arith, places n),
          λ n. (
            λ h. (affected_lem n).0 (ground (arith, h, places n)),
            λ h. affected_placed c a (a.rank n + 1) n (omega arith) ((affected_lem n).1 h),
          ),
        )
