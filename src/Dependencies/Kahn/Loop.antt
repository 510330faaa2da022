-- ===== src/Dependencies/Kahn/Loop.antt =====
-- include/dbsp_cdc.hpp, DependencyGraph: the loop of `topological_order`.
use duck_dbsp.Prelude.{
  ℕ, zero, suc, ◌+◌, ◌-◌, ◌≡◌, refl, List, [], ◌∷◌, ◌++◌, if◌then◌else◌, length, length-append, leb,
  arith,
}
use duck_dbsp.Prelude.Int.{ℤ}
use duck_dbsp.Prelude.Equality.{Eq}
use duck_dbsp.Umap.{Umap}
use duck_dbsp.Dependencies.{DependencyGraph, times, member, direct, lower_degrees, kahn_loop}
use duck_dbsp.Dependencies.Sets.{◌∈◌, IsDistinct, times-append, times-snoc, length-le_of_subset}
use duck_dbsp.Dependencies.Consistent.{IsConsistent}
use duck_dbsp.Dependencies.Kahn.Degrees.{
  HasDegrees, HasDegrees-congr, left, waiting-snoc, placed_of_waiting,
}
use duck_dbsp.Dependencies.Kahn.Lower.{lower_degrees-HasDegrees}

-- Each node of the list stands behind all those of its dependencies that `P` holds of.
pub data IsOrdered {ℓ κ} {N : Type ℓ} ⦃en : Eq N⦄ (P : N → Type κ) (g : DependencyGraph N)
    : List N → Type (ℓ ⊔ κ) where
  first : IsOrdered P g []
  next :
      {before after : List N}
      → IsOrdered P g before
      → (n : N) → ((d : N) → d ∈ direct g.dependencies n → P d → d ∈ before)
      → after ≡ before ++ (n ∷ [])
      → IsOrdered P g after

pub IsOrdered-map {ℓ κ μ} :
    {N : Type ℓ} ⦃en : Eq N⦄ {P : N → Type κ} {Q : N → Type μ} {g : DependencyGraph N} {xs : List N}
    → ((n : N) → Q n → P n)
    → IsOrdered P g xs
    → IsOrdered Q g xs
IsOrdered-map f first = first
IsOrdered-map f (next o n h e) = next (IsOrdered-map f o) n (λ d i q. h d i (f d q)) e

module _ {ℓ} {N : Type ℓ} ⦃en : Eq N⦄ (affected : List N) (g : DependencyGraph N) where
  -- Exactly the affected nodes with no dependency left have a place, one each.
  abbrev pub HasPlaces : List N → List N → Type ℓ
  HasPlaces done places =
      (n : N)
      → times n places
        ≡ (if member n affected then (if leb (left affected g done n) 0 then 1 else 0) else 0)

  pub record IsRunning (fuel : ℕ) (degrees : Umap N ℤ) (queue result : List N) : Type ℓ where
    pub counted : HasDegrees affected (left affected g result) degrees
    pub places : HasPlaces result (result ++ queue)
    pub ordered : IsOrdered (λ n. n ∈ affected) g result
    pub room : length affected ≡ length result + fuel

  -- With no fuel left every place is taken, since no node has two.
  IsRunning-done :
      (degrees : Umap N ℤ) (queue result : List N)
      → IsDistinct affected
      → IsRunning 0 degrees queue result
      → queue ≡ []
  IsRunning-done degrees [] result d r = refl
  IsRunning-done degrees (x ∷ queue) result d r =
      let full =
        length-le_of_subset (result ++ (x ∷ queue)) affected (λ n. ground (arith, r.places n)) d
          (λ n h. ground (arith, r.places n, h)) in
      absurd (omega (arith, full, length-append result (x ∷ queue), r.room))

  module _ (c : IsConsistent g) (fuel : ℕ) (degrees : Umap N ℤ) (x : N) (queue result : List N)
      (r : IsRunning (suc fuel) degrees (x ∷ queue) result) where
    abbrev deps : List N
    deps = direct g.dependents x

    head_place : (x ∈ affected) × (times x result ≡ 0) × (left affected g result x ≡ 0)
    unfolding times
    head_place = ground (arith, r.places x, times-append x result (x ∷ queue), en.equal_iff x x)

    left-snoc :
        (n : N) → left affected g (result ++ (x ∷ [])) n + times n deps ≡ left affected g result n
    left-snoc n =
        let (inside, fresh, _) = head_place in
        omega (
          arith,
          waiting-snoc affected result x (direct g.dependencies n) inside fresh,
          c.mirrored x n,
        )

    abbrev after : Umap N ℤ × List N
    after = lower_degrees deps (degrees, queue)

    IsRunning-next : IsRunning fuel after.0 after.1 (result ++ (x ∷ []))
    IsRunning-next =
        let (inside, fresh, ready) = head_place in
        let (kept, more) =
          lower_degrees-HasDegrees affected deps (left affected g result) degrees queue
            (c.dependents_sets.distinct x) (λ n j. omega (arith, left-snoc n)) r.counted in
        record {
          counted =
              HasDegrees-congr affected (λ n. left affected g result n - times n deps) _ _
                (λ n j. omega (arith, left-snoc n)) kept;
          places = λ n.
              unfold times in
              ground (
                arith,
                more n,
                left-snoc n,
                r.places n,
                c.dependents_sets.distinct x n,
                times-append n (result ++ (x ∷ [])) after.1,
                times-append n result (x ∷ queue),
                times-snoc n x result,
              );
          ordered =
              next r.ordered x
                (λ d. placed_of_waiting affected result (direct g.dependencies x) d ready) refl;
          room = omega (arith, r.room, length-append result (x ∷ []));
        }

  kahn_loop-stop :
      (degrees : Umap N ℤ) (fuel : ℕ) (result : List N)
      → IsRunning fuel degrees [] result
      → IsOrdered (λ n. n ∈ affected) g result × HasPlaces result result
  unfolding times
  kahn_loop-stop degrees fuel result r =
      (r.ordered, λ n. ground (arith, r.places n, times-append n result []))

  -- The loop ends with its queue empty: what it has placed stands in order, and is all that could be.
  pub kahn_loop-IsOrdered :
      (fuel : ℕ) (degrees : Umap N ℤ) (queue result : List N)
      → IsConsistent g
      → IsDistinct affected
      → IsRunning fuel degrees queue result
      → IsOrdered (λ n. n ∈ affected) g (kahn_loop fuel g.dependents degrees queue result)
        × HasPlaces
            (kahn_loop fuel g.dependents degrees queue result)
            (kahn_loop fuel g.dependents degrees queue result)
  unfolding kahn_loop
  kahn_loop-IsOrdered zero degrees queue result c d r =
      let e = IsRunning-done degrees queue result d r in kahn_loop-stop degrees 0 result (rw e at r)
  kahn_loop-IsOrdered (suc fuel) degrees [] result c d r =
      kahn_loop-stop degrees (suc fuel) result r
  kahn_loop-IsOrdered (suc fuel) degrees (x ∷ queue) result c d r =
      kahn_loop-IsOrdered fuel _ _ (result ++ (x ∷ [])) c d
        (IsRunning-next c fuel degrees x queue result r)
