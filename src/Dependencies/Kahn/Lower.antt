-- ===== src/Dependencies/Kahn/Lower.antt =====
-- include/dbsp_cdc.hpp, DependencyGraph: the decrements after a node of `topological_order`.
use duck_dbsp.Prelude.{
  ℕ, ◌+◌, ◌-◌, ◌≤◌, ◌≡◌, refl, true, false, List, [], ◌∷◌, ◌++◌, some, if◌then◌else◌, leb, ap, inl,
  inr, Bool-cases, arith,
}
use duck_dbsp.Prelude.Int.{ℤ, pos, ◌-ℤ◌, ◌==ℤ◌, int_laws}
use duck_dbsp.Prelude.Equality.{Eq, ◌==◌}
use duck_dbsp.Umap
use duck_dbsp.Umap.{Umap}
use duck_dbsp.Dependencies.{times, member, degree_of, has_degree, lower_degrees}
use duck_dbsp.Dependencies.Sets.{◌∈◌, IsDistinct, times-snoc}
use duck_dbsp.Dependencies.Kahn.Degrees.{HasDegrees, HasDegrees-congr, update-HasDegrees}

module _ {ℓ} {N : Type ℓ} ⦃en : Eq N⦄ where
  abbrev lowered : N → Umap N ℤ → Umap N ℤ
  lowered dep degrees = Umap.update (pos 0) dep (λ d. d -ℤ pos 1) degrees

  abbrev queued : N → Umap N ℤ → List N → List N
  queued dep degrees queue = if degree_of dep degrees ==ℤ pos 0 then queue ++ (dep ∷ []) else queue

  times-queued :
      (dep : N) (m : Umap N ℤ) (queue : List N) (k : ℕ) (n : N)
      → Umap.find dep m ≡ some (pos k)
      → times n (queued dep m queue)
        ≡ times n queue + (if dep == n then (if leb k 0 then 1 else 0) else 0)
  times-queued dep m queue k n e = rw e (ground (arith, times-snoc n dep queue))

  lower_degrees-inside :
      (dep : N) (deps : List N) (degrees : Umap N ℤ) (queue : List N)
      → has_degree dep degrees ≡ true
      → lower_degrees (dep ∷ deps) (degrees, queue)
        ≡ lower_degrees deps (lowered dep degrees, queued dep (lowered dep degrees) queue)
  unfolding lower_degrees
  lower_degrees-inside dep deps degrees queue e = rw (e, lower_degrees) refl

  lower_degrees-outside :
      (dep : N) (deps : List N) (degrees : Umap N ℤ) (queue : List N)
      → has_degree dep degrees ≡ false
      → lower_degrees (dep ∷ deps) (degrees, queue) ≡ lower_degrees deps (degrees, queue)
  unfolding lower_degrees
  lower_degrees-outside dep deps degrees queue e = rw (e, lower_degrees) refl

  -- How often a node enters the queue when its dependencies in the list are done.
  abbrev pub released : List N → (N → ℕ) → List N → N → ℕ
  released affected degree deps n =
      if member n affected then (if leb (degree n) (times n deps) then times n deps else 0) else 0

  -- Each degree falls by the occurrences of its node, and what falls to zero enters the queue.
  pub lower_degrees-HasDegrees :
      (affected deps : List N) (degree : N → ℕ) (degrees : Umap N ℤ) (queue : List N)
      → IsDistinct deps
      → ((n : N) → n ∈ affected → times n deps ≤ degree n)
      → HasDegrees affected degree degrees
      → HasDegrees affected (λ n. degree n - times n deps) (lower_degrees deps (degrees, queue)).0
        × ((n : N)
            → times n (lower_degrees deps (degrees, queue)).1
              ≡ times n queue + released affected degree deps n)
  unfolding times
  lower_degrees-HasDegrees affected [] degree degrees queue d b h =
      unfold lower_degrees in (λ n. ground (arith, h n), λ n. ground arith)
  lower_degrees-HasDegrees affected (dep ∷ deps) degree degrees queue d b h =
      elim (Bool-cases (member dep affected)) [
        | inl inside ↦
            let less = λ (n : N). if dep == n then degree dep - 1 else degree n in
            let here : dep ∈ affected = ground (arith, inside) in
            let some_left : 1 ≤ degree dep = ground (arith, b dep here, en.equal_iff dep dep) in
            let one_less =
              update-HasDegrees affected dep (λ d. d -ℤ pos 1) (degree dep - 1) degree degrees here
                h (omega (int_laws, some_left)) in
            let (kept, more) =
              lower_degrees-HasDegrees affected deps less (lowered dep degrees)
                (queued dep (lowered dep degrees) queue) (λ n. ground (arith, d n))
                (λ n j. ground (arith, b n j, d n, en.equal_iff dep n)) one_less in
            let below = degree dep - 1 in
            let found : Umap.find dep (lowered dep degrees) ≡ some (pos below) =
              ground (arith, one_less dep, here, en.equal_iff dep dep) in
            let entered = λ (n : N). times-queued dep (lowered dep degrees) queue below n found in
            rw (lower_degrees-inside dep deps degrees queue (ground (arith, h dep))) (
              HasDegrees-congr affected (λ n. less n - times n deps) _ _
                  (λ n j. elim (Bool-cases (dep == n)) [
                    | inl hit ↦ ground (arith, hit, ap degree ((en.equal_iff dep n).0 hit))
                    | inr miss ↦ ground (arith, miss)
                  ])
                  kept,
              λ n. elim (Bool-cases (dep == n)) [
                | inl hit ↦
                    let same = (en.equal_iff dep n).0 hit in
                    ground (
                      arith,
                      inside,
                      hit,
                      more n,
                      d n,
                      entered n,
                      some_left,
                      ap degree same,
                      ap (λ (x : N). times x affected) same,
                    )
                | inr miss ↦ ground (arith, miss, more n, entered n)
              ],
            )
        | inr outside ↦
            let (kept, more) =
              lower_degrees-HasDegrees affected deps degree degrees queue (λ n. ground (arith, d n))
                (λ n j. ground (arith, b n j)) h in
            rw (lower_degrees-outside dep deps degrees queue (ground (arith, h dep))) (
              HasDegrees-congr affected (λ n. degree n - times n deps) _ _
                  (λ n j. ground (arith, outside, en.equal_iff dep n)) kept,
              λ n. ground (arith, outside, more n, en.equal_iff dep n),
            )
      ]
