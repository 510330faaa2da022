-- ===== src/Dependencies/Kahn/Degrees.antt =====
-- include/dbsp_cdc.hpp, DependencyGraph: the degrees before the loop of `topological_order`.
use duck_dbsp.Prelude.{
  ℕ, ◌+◌, ◌≡◌, List, [], ◌∷◌, ◌++◌, none, some, if◌then◌else◌, ap, inl, inr, Bool-cases, arith,
}
use duck_dbsp.Prelude.Int.{ℤ, pos, ◌+ℤ◌, ◌==ℤ◌, int_laws}
use duck_dbsp.Prelude.Equality.{Eq, ◌==◌}
use duck_dbsp.Umap
use duck_dbsp.Umap.{Umap}
use duck_dbsp.Umap.Sums.{
  UniqueKeys, occurs, find-update, find-eq-none, update-UniqueKeys, empty-UniqueKeys,
}
use duck_dbsp.Dependencies.{
  DependencyGraph, times, member, direct, zero_degrees, count_inside, in_degrees, without_degree,
}
use duck_dbsp.Dependencies.Sets.{◌∈◌, IsDistinct, times-snoc}

module _ {ℓ} {N : Type ℓ} ⦃en : Eq N⦄ where
  -- How many of the dependencies are affected and have no place in the order yet.
  unfoldable pub waiting : List N → List N → List N → ℕ
  waiting affected done [] = 0
  waiting affected done (dep ∷ deps) =
      (if member dep affected then (if member dep done then 0 else 1) else 0)
      + waiting affected done deps

  -- The map has a degree exactly for the nodes of the list, the one that `degree` says.
  abbrev pub HasDegrees : List N → (N → ℕ) → Umap N ℤ → Type ℓ
  HasDegrees affected degree degrees =
      (n : N) → Umap.find n degrees ≡ (if member n affected then some (pos (degree n)) else none)

  pub waiting-snoc :
      (affected done : List N) (x : N) (deps : List N)
      → x ∈ affected
      → times x done ≡ 0
      → waiting affected (done ++ (x ∷ [])) deps + times x deps ≡ waiting affected done deps
  unfolding waiting times
  waiting-snoc affected done x [] h e = omega arith
  waiting-snoc affected done x (dep ∷ deps) h e = ground (
    arith,
    waiting-snoc affected done x deps h e,
    times-snoc dep x done,
    en.equal_iff x dep,
    en.equal_iff dep x,
  )

  pub waiting-eq-zero :
      (affected done deps : List N)
      → ((d : N) → d ∈ deps → d ∈ affected → d ∈ done)
      → waiting affected done deps ≡ 0
  unfolding waiting times
  waiting-eq-zero affected done [] h = omega arith
  waiting-eq-zero affected done (dep ∷ deps) h = ground (
    arith,
    h dep,
    en.equal_iff dep dep,
    waiting-eq-zero affected done deps (λ d i. h d (omega (arith, i))),
  )

  pub placed_of_waiting :
      (affected done deps : List N) (d : N)
      → waiting affected done deps ≡ 0
      → d ∈ deps
      → d ∈ affected
      → d ∈ done
  unfolding waiting times
  placed_of_waiting affected done [] d h i a = absurd (omega (arith, i))
  placed_of_waiting affected done (dep ∷ deps) d h i a =
      ground (arith, i, h, en.equal_iff dep d, placed_of_waiting affected done deps d)

  zero_degrees-find :
      (nodes : List N) (degrees : Umap N ℤ) (n : N)
      → Umap.find n (zero_degrees nodes degrees)
        ≡ (if member n nodes then some (pos 0) else Umap.find n degrees)
  unfolding zero_degrees times
  zero_degrees-find [] degrees n = ground arith
  zero_degrees-find (node ∷ nodes) degrees n = ground (
    arith,
    zero_degrees-find nodes (Umap.update (pos 0) node (λ _. pos 0) degrees) n,
    find-update (pos 0) node n (λ _. pos 0) degrees,
  )

  zero_degrees-UniqueKeys :
      (nodes : List N) (degrees : Umap N ℤ)
      → UniqueKeys degrees
      → UniqueKeys (zero_degrees nodes degrees)
  unfolding zero_degrees
  zero_degrees-UniqueKeys [] degrees u = u
  zero_degrees-UniqueKeys (node ∷ nodes) degrees u =
      zero_degrees-UniqueKeys nodes _ (update-UniqueKeys (pos 0) node (λ _. pos 0) degrees u)

  -- A write to the degree of an affected node.
  pub update-HasDegrees :
      (affected : List N) (node : N) (f : ℤ → ℤ) (k : ℕ) (degree : N → ℕ) (degrees : Umap N ℤ)
      → node ∈ affected
      → HasDegrees affected degree degrees
      → f (pos (degree node)) ≡ pos k
      → HasDegrees affected
          (λ n. if node == n then k else degree n)
          (Umap.update (pos 0) node f degrees)
  update-HasDegrees affected node f k degree degrees i h e n =
      ground (arith, h n, h node, e, en.equal_iff node n, find-update (pos 0) node n f degrees)

  pub HasDegrees-congr :
      (affected : List N) (degree degree' : N → ℕ) (degrees : Umap N ℤ)
      → ((n : N) → n ∈ affected → degree n ≡ degree' n)
      → HasDegrees affected degree degrees
      → HasDegrees affected degree' degrees
  HasDegrees-congr affected degree degree' degrees e h n = ground (arith, h n, e n)

  count_inside-HasDegrees :
      (affected : List N) (node : N) (deps : List N) (degree : N → ℕ) (degrees : Umap N ℤ)
      → node ∈ affected
      → HasDegrees affected degree degrees
      → HasDegrees affected
          (λ n. degree n + (if node == n then waiting affected [] deps else 0))
          (count_inside affected node deps degrees)
  unfolding count_inside waiting times
  count_inside-HasDegrees affected node [] degree degrees i h = λ n. ground (arith, h n)
  count_inside-HasDegrees affected node (dep ∷ deps) degree degrees i h =
      elim (Bool-cases (member dep affected)) [
        | inl inside ↦
            let more = λ (n : N). if node == n then degree node + 1 else degree n in
            rw inside (
              HasDegrees-congr affected
                (λ n. more n + (if node == n then waiting affected [] deps else 0)) _ _
                (λ n j. ground (arith, inside, en.equal_iff node n))
                (count_inside-HasDegrees affected node deps more _ i (
                  update-HasDegrees affected node (λ d. d +ℤ pos 1) (degree node + 1) degree degrees
                    i h (omega int_laws))))
        | inr outside ↦ rw outside (
            HasDegrees-congr affected
              (λ n. degree n + (if node == n then waiting affected [] deps else 0)) _ _
              (λ n j. ground (arith, outside))
              (count_inside-HasDegrees affected node deps degree degrees i h))
      ]

  count_inside-UniqueKeys :
      (affected : List N) (node : N) (deps : List N) (degrees : Umap N ℤ)
      → UniqueKeys degrees
      → UniqueKeys (count_inside affected node deps degrees)
  unfolding count_inside
  count_inside-UniqueKeys affected node [] degrees u = u
  count_inside-UniqueKeys affected node (dep ∷ deps) degrees u =
      elim (Bool-cases (member dep affected)) [
        | inl inside ↦ rw inside (
            count_inside-UniqueKeys affected node deps _
              (update-UniqueKeys (pos 0) node (λ d. d +ℤ pos 1) degrees u))
        | inr outside ↦ rw outside (count_inside-UniqueKeys affected node deps degrees u)
      ]

  module _ (affected : List N) (g : DependencyGraph N) where
    -- The dependencies of a node that stand before it.
    abbrev pub left : List N → N → ℕ
    left done n = waiting affected done (direct g.dependencies n)

    in_degrees-HasDegrees :
        (nodes : List N) (degree : N → ℕ) (degrees : Umap N ℤ)
        → IsDistinct nodes
        → ((n : N) → n ∈ nodes → n ∈ affected)
        → HasDegrees affected degree degrees
        → HasDegrees affected
            (λ n. degree n + (if member n nodes then left [] n else 0))
            (in_degrees affected nodes g degrees)
    unfolding in_degrees times
    in_degrees-HasDegrees [] degree degrees d i h = λ n. ground (arith, h n)
    in_degrees-HasDegrees (node ∷ nodes) degree degrees d i h =
        let more = λ (n : N). degree n + (if node == n then left [] node else 0) in
        HasDegrees-congr affected (λ n. more n + (if member n nodes then left [] n else 0)) _ _
          (λ n j. elim (Bool-cases (node == n)) [
            | inl hit ↦ ground (arith, d n, hit, ap (left []) ((en.equal_iff node n).0 hit))
            | inr miss ↦ ground (arith, miss)
          ])
          (in_degrees-HasDegrees nodes more _ (λ n. ground (arith, d n))
            (λ n j. i n (omega (arith, j)))
            (count_inside-HasDegrees affected node (direct g.dependencies node) degree degrees
              (i node (ground (arith, en.equal_iff node node))) h))

    in_degrees-UniqueKeys :
        (nodes : List N) (degrees : Umap N ℤ)
        → UniqueKeys degrees
        → UniqueKeys (in_degrees affected nodes g degrees)
    unfolding in_degrees
    in_degrees-UniqueKeys [] degrees u = u
    in_degrees-UniqueKeys (node ∷ nodes) degrees u =
        in_degrees-UniqueKeys nodes _
          (count_inside-UniqueKeys affected node (direct g.dependencies node) degrees u)

    abbrev pub start_degrees : Umap N ℤ
    start_degrees = in_degrees affected affected g (zero_degrees affected [])

    pub start_degrees-HasDegrees : IsDistinct affected → HasDegrees affected (left []) start_degrees
    unfolding Umap.find
    start_degrees-HasDegrees d =
        HasDegrees-congr affected (λ n. 0 + (if member n affected then left [] n else 0)) _ _
          (λ n j. ground arith)
          (in_degrees-HasDegrees affected (λ n. 0) (zero_degrees affected []) d (λ n j. j)
            (λ n. zero_degrees-find affected [] n))

    pub start_degrees-UniqueKeys : UniqueKeys start_degrees
    start_degrees-UniqueKeys =
        in_degrees-UniqueKeys affected _
          (zero_degrees-UniqueKeys affected [] (empty-UniqueKeys N ℤ))

  -- The first queue holds once each node whose degree is zero.
  pub times-without_degree :
      (degrees : Umap N ℤ) (n : N)
      → UniqueKeys degrees
      → times n (without_degree degrees)
        ≡ elim (Umap.find n degrees) [ none ↦ 0 | some d ↦ if d ==ℤ pos 0 then 1 else 0 ]
  unfolding times without_degree Umap.find occurs
  times-without_degree [] n u = ground arith
  times-without_degree ((node, degree) ∷ degrees) n u = ground (
    arith,
    u n,
    en.equal_iff node n,
    find-eq-none n degrees,
    times-without_degree degrees n (λ q. ground (arith, u q)),
  )
