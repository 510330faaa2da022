-- ===== src/Dependencies/Consistent.antt =====
-- include/dbsp_cdc.hpp, DependencyGraph: the two maps of a graph mirror each other.
use duck_dbsp.Prelude.{◌≡◌, ◌||◌, ◌&&◌, List, [], ◌∷◌, if◌then◌else◌, arith}
use duck_dbsp.Prelude.Equality.{Eq, ◌==◌}
use duck_dbsp.Umap
use duck_dbsp.Umap.{Umap}
use duck_dbsp.Umap.Sums.{
  UniqueKeys, find-erase, update-UniqueKeys, erase-UniqueKeys, empty-UniqueKeys,
}
use duck_dbsp.Dependencies.{
  DependencyGraph, new_graph, times, member, direct, set_insert, set_erase, erase_from,
  add_dependency, remove_node,
}
use duck_dbsp.Dependencies.Sets.{IsDistinct, times-set_insert, times-set_erase, direct-update}

module _ {ℓ} {N : Type ℓ} ⦃en : Eq N⦄ where
  -- A set for every node, of nodes without repetitions.
  pub record IsSetMap (m : Umap N (List N)) : Type ℓ where
    pub unique : UniqueKeys m
    pub distinct : (u : N) → IsDistinct (direct m u)

  -- A node depends on another exactly if it is among the other's dependents.
  pub record IsConsistent (g : DependencyGraph N) : Type ℓ where
    pub dependencies_sets : IsSetMap g.dependencies
    pub dependents_sets : IsSetMap g.dependents
    pub mirrored : (u v : N) → times u (direct g.dependencies v) ≡ times v (direct g.dependents u)

  insert-IsSetMap :
      (u x : N) (m : Umap N (List N)) → IsSetMap m → IsSetMap (Umap.update [] u (set_insert x) m)
  insert-IsSetMap u x m s = record {
    unique = update-UniqueKeys [] u (set_insert x) m s.unique;
    distinct = λ v y. ground (
      arith,
      direct-update u v (set_insert x) m,
      times-set_insert y x (direct m v),
      s.distinct v y,
    );
  }

  -- The edges after an insertion.
  pub times-direct-insert :
      (u x v y : N) (m : Umap N (List N))
      → IsSetMap m
      → times y (direct (Umap.update [] u (set_insert x) m) v)
        ≡ (if (u == v) && (x == y) then 1 else times y (direct m v))
  times-direct-insert u x v y m s =
      ground (
        arith,
        direct-update u v (set_insert x) m,
        times-set_insert y x (direct m v),
        s.distinct v y,
      )

  erase-IsSetMap :
      (u x : N) (m : Umap N (List N)) → IsSetMap m → IsSetMap (Umap.update [] u (set_erase x) m)
  erase-IsSetMap u x m s = record {
    unique = update-UniqueKeys [] u (set_erase x) m s.unique;
    distinct = λ v y. ground (
      arith,
      direct-update u v (set_erase x) m,
      times-set_erase y x (direct m v) (s.distinct v),
      s.distinct v y,
    );
  }

  drop-IsSetMap : (u : N) (m : Umap N (List N)) → IsSetMap m → IsSetMap (Umap.erase u m)
  unfolding times
  drop-IsSetMap u m s = record {
    unique = erase-UniqueKeys u m s.unique;
    distinct = λ v y. ground (arith, find-erase u v m s.unique, s.distinct v y);
  }

  times-direct-drop :
      (u v y : N) (m : Umap N (List N))
      → IsSetMap m
      → times y (direct (Umap.erase u m) v) ≡ (if u == v then 0 else times y (direct m v))
  unfolding times
  times-direct-drop u v y m s = ground (arith, find-erase u v m s.unique)

  erase_from-IsSetMap :
      (x : N) (keys : List N) (m : Umap N (List N)) → IsSetMap m → IsSetMap (erase_from x keys m)
  unfolding erase_from
  erase_from-IsSetMap x [] m s = s
  erase_from-IsSetMap x (u ∷ keys) m s =
      erase_from-IsSetMap x keys (Umap.update [] u (set_erase x) m) (erase-IsSetMap u x m s)

  times-erase_from :
      (x : N) (keys : List N) (v y : N) (m : Umap N (List N))
      → IsSetMap m
      → times y (direct (erase_from x keys m) v)
        ≡ (if (x == y) && member v keys then 0 else times y (direct m v))
  unfolding erase_from times
  times-erase_from x [] v y m s = ground arith
  times-erase_from x (u ∷ keys) v y m s = ground (
    arith,
    times-erase_from x keys v y (Umap.update [] u (set_erase x) m) (erase-IsSetMap u x m s),
    direct-update u v (set_erase x) m,
    times-set_erase y x (direct m v) (s.distinct v),
  )

  pub new_graph-IsConsistent : IsConsistent new_graph
  unfolding times Umap.find
  new_graph-IsConsistent =
      let empty : IsSetMap [] = record {
        unique = empty-UniqueKeys N (List N);
        distinct = λ u y. omega arith;
      } in
      record { dependencies_sets = empty; dependents_sets = empty; mirrored = λ u v. omega arith }

  -- A new edge keeps the two maps each other's mirror.
  pub add_dependency-IsConsistent :
      (dependent dependency : N) (g : DependencyGraph N)
      → IsConsistent g
      → IsConsistent (add_dependency dependent dependency g)
  unfolding add_dependency
  add_dependency-IsConsistent a b g c = record {
    dependencies_sets = insert-IsSetMap a b g.dependencies c.dependencies_sets;
    dependents_sets = insert-IsSetMap b a g.dependents c.dependents_sets;
    mirrored = λ u v. ground (
      arith,
      times-direct-insert a b v u g.dependencies c.dependencies_sets,
      times-direct-insert b a u v g.dependents c.dependents_sets,
      c.mirrored u v,
    );
  }

  module _ (node : N) (g : DependencyGraph N) (c : IsConsistent g) where
    times-remove_node-dependents :
        (u v : N)
        → times v (direct (remove_node node g).dependents u)
          ≡ (if (node == u) || (node == v) then 0 else times v (direct g.dependents u))
    unfolding remove_node
    times-remove_node-dependents u v =
        let keys = direct g.dependencies node in
        let s = erase_from-IsSetMap node keys g.dependents c.dependents_sets in
        ground (
          arith,
          times-direct-drop node u v (erase_from node keys g.dependents) s,
          times-erase_from node keys u v g.dependents c.dependents_sets,
          en.equal_iff node v,
          c.mirrored u node,
        )

    times-remove_node-dependencies :
        (u v : N)
        → times u (direct (remove_node node g).dependencies v)
          ≡ (if (node == u) || (node == v) then 0 else times u (direct g.dependencies v))
    unfolding remove_node
    times-remove_node-dependencies u v =
        let keys = direct g.dependencies node in
        let dropped = Umap.erase node g.dependencies in
        let left = erase_from node keys g.dependents in
        ground (
          arith,
          times-erase_from node (direct left node) v u dropped
              (drop-IsSetMap node g.dependencies c.dependencies_sets),
          times-direct-drop node v u g.dependencies c.dependencies_sets,
          times-erase_from node keys node v g.dependents c.dependents_sets,
          en.equal_iff node u,
          c.mirrored node v,
        )

    -- Removing a node keeps the two maps each other's mirror, and takes away exactly the edges at the
    -- node.
    pub remove_node-IsConsistent :
        IsConsistent (remove_node node g)
        × ((u v : N)
            → times v (direct (remove_node node g).dependents u)
              ≡ (if (node == u) || (node == v) then 0 else times v (direct g.dependents u)))
    unfolding remove_node
    remove_node-IsConsistent =
        let keys = direct g.dependencies node in
        let left = erase_from node keys g.dependents in
        let s = erase_from-IsSetMap node keys g.dependents c.dependents_sets in
        (
          record {
            dependencies_sets =
                erase_from-IsSetMap node (direct left node) _
                  (drop-IsSetMap node g.dependencies c.dependencies_sets);
            dependents_sets = drop-IsSetMap node left s;
            mirrored = λ u v. ground (
              arith,
              times-remove_node-dependents u v,
              times-remove_node-dependencies u v,
              c.mirrored u v,
            );
          },
          times-remove_node-dependents,
        )
