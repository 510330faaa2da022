-- ===== src/Indexed/Join.antt =====
-- equi_join joins exactly the pairs with equal keys, with the product of their weights.
use duck_dbsp.Prelude.{arith, ◌≡◌, refl, [], ◌∷◌, true, false, Bool, if◌then◌else◌}
use duck_dbsp.Prelude.Int.{ℤ, pos, ◌+ℤ◌, ◌*ℤ◌, int_laws, mul_left_comm, mul-zero, mul-one}
use duck_dbsp.Prelude.Equality.{Eq, ◌==◌, pair_eq}
use duck_dbsp.Umap
use duck_dbsp.Umap.Sums.{UniqueKeys, empty-UniqueKeys}
use duck_dbsp.Flat.Measures.{tally}
use duck_dbsp.Zset.{ZSet, empty, get, insert_scaled}
use duck_dbsp.Zset.Reduced.{IsReduced, empty-IsReduced, insert_scaled-IsReduced}
use duck_dbsp.Zset.Total.{total, total-empty, total-insert_scaled}
use duck_dbsp.Zset.Assign.{unit_at, get-total}
use duck_dbsp.Zset.Linear.{total_congr, total-scale}
use duck_dbsp.Indexed.{IndexedZSet, at, insert_all, probe_loop, equi_join}
use duck_dbsp.Indexed.Sums.{total-at, total_of-insert_all, insert_all-UniqueKeys}

scaled_pair :
    (hit : Bool) (v t v' t' : ℤ)
    → v ≡ t
    → v' ≡ t'
    → t *ℤ (t' *ℤ (if hit then pos 1 else pos 0)) ≡ (if hit then v *ℤ v' else pos 0)
scaled_pair true v t v' t' e e' = rw (e, e', mul-one)
scaled_pair false v t v' t' e e' = rw (mul-zero, mul-zero)

module _ {κ μ} {B : Type κ} {K : Type μ} ⦃eb : Eq B⦄ ⦃ek : Eq K⦄ where
  -- The values that the index over a Z-set has under a key.
  pub total-at-insert_all :
      (g : B → ℤ) (key_fn : B → K) (z : ZSet B) (ix : IndexedZSet K B) (k : K)
      → UniqueKeys ix
      → total g (at (insert_all key_fn z ix) k)
        ≡ total g (at ix k) +ℤ total (λ b. if key_fn b == k then g b else pos 0) z
  total-at-insert_all g key_fn z ix k u =
      let g' : K → B → ℤ = λ j v. if j == k then g v else pos 0 in
      omega (
        int_laws,
        total-at g (insert_all key_fn z ix) k (insert_all-UniqueKeys key_fn z ix u),
        total-at g ix k u,
        total_of-insert_all g' key_fn z ix,
      )

  -- So over the index of a Z-set alone.
  pub total-at-index :
      (g : B → ℤ) (key_fn : B → K) (z : ZSet B) (k : K)
      → total g (at (insert_all key_fn z []) k)
        ≡ total (λ b. if key_fn b == k then g b else pos 0) z
  total-at-index g key_fn z k =
      let nothing : total g (at {K = K} [] k) ≡ pos 0 = unfold at total tally Umap.find in refl in
      omega (int_laws, total-at-insert_all g key_fn z [] k (empty-UniqueKeys K (ZSet B)), nothing)

module _ {ℓ κ μ} {A : Type ℓ} {B : Type κ} {K : Type μ} ⦃ea : Eq A⦄ ⦃eb : Eq B⦄ ⦃ek : Eq K⦄ where
  pub total-probe_loop :
      (g : A × B → ℤ) (key_fn : A → K) (ix : IndexedZSet K B) (z : ZSet A) (result : ZSet (A × B))
      → total g (probe_loop key_fn ix z result)
        ≡ total g result +ℤ total (λ a. total (λ b. g (a, b)) (at ix (key_fn a))) z
  unfolding probe_loop total tally
  total-probe_loop g key_fn ix [] result = omega int_laws
  total-probe_loop g key_fn ix ((a, w) ∷ z) result =
      let step = insert_scaled ⦃eb = pair_eq⦄ (λ b. (a, b)) w (at ix (key_fn a)) result in
      omega (
        int_laws,
        total-probe_loop g key_fn ix z step,
        total-insert_scaled g (λ b. (a, b)) w (at ix (key_fn a)) result,
      )

  pub probe_loop-IsReduced :
      (key_fn : A → K) (ix : IndexedZSet K B) (z : ZSet A) (result : ZSet (A × B))
      → IsReduced result
      → IsReduced (probe_loop key_fn ix z result)
  unfolding probe_loop
  probe_loop-IsReduced key_fn ix [] result r = r
  probe_loop-IsReduced key_fn ix ((a, w) ∷ z) result r =
      probe_loop-IsReduced key_fn ix z (insert_scaled (λ b. (a, b)) w (at ix (key_fn a)) result)
        (insert_scaled-IsReduced (λ b. (a, b)) w (at ix (key_fn a)) result r)

  module _ (zs1 : ZSet A) (zs2 : ZSet B) (key1 : A → K) (key2 : B → K) where
    abbrev pub join_form : (A × B → ℤ) → A → ℤ
    join_form g a = total (λ b. if key2 b == key1 a then g (a, b) else pos 0) zs2

    pub total-equi_join :
        (g : A × B → ℤ) → total g (equi_join zs1 zs2 key1 key2) ≡ total (join_form g) zs1
    unfolding equi_join
    total-equi_join g =
        let ix : IndexedZSet K B = insert_all key2 zs2 [] in
        omega (
          int_laws,
          total-probe_loop g key1 ix zs1 empty,
          total-empty g,
          total_congr (λ a. total (λ b. g (a, b)) (at ix (key1 a))) (join_form g) zs1
              (λ a. total-at-index (λ b. g (a, b)) key2 zs2 (key1 a)),
        )

    pub equi_join-IsReduced : IsReduced (equi_join zs1 zs2 key1 key2)
    unfolding equi_join
    equi_join-IsReduced =
        probe_loop-IsReduced key1 (insert_all key2 zs2 []) zs1 empty empty-IsReduced

    unit_at-joined :
        (a a' : A) (b b' : B)
        → (if key2 b' == key1 a' then unit_at {A = A × B} (a, b) (a', b') else pos 0)
          ≡ unit_at b b' *ℤ (unit_at a a' *ℤ (if key2 b == key1 a then pos 1 else pos 0))
    unfolding ◌*ℤ◌
    unit_at-joined a a' b b' = ground (arith, ea.equal_iff a' a, eb.equal_iff b' b)

    join_form-unit_at :
        (a a' : A) (b : B)
        → join_form (unit_at {A = A × B} (a, b)) a'
          ≡ unit_at a a' *ℤ (total (unit_at b) zs2 *ℤ (if key2 b == key1 a then pos 1 else pos 0))
    join_form-unit_at a a' b =
        let m : ℤ = if key2 b == key1 a then pos 1 else pos 0 in
        let u = unit_at a a' in
        omega (
          int_laws,
          total_congr
              (λ b'. if key2 b' == key1 a' then unit_at {A = A × B} (a, b) (a', b') else pos 0)
              (λ b'. unit_at b b' *ℤ (u *ℤ m)) zs2 (unit_at-joined a a' b),
          total-scale (unit_at b) (u *ℤ m) zs2,
          mul_left_comm (total (unit_at b) zs2) u m,
        )

    -- In the join of two reduced Z-sets a pair with equal keys has the product of the weights, and
    -- every other pair has weight 0.
    pub get-equi_join :
        (a : A) (b : B)
        → IsReduced zs1
        → IsReduced zs2
        → get (equi_join zs1 zs2 key1 key2) (a, b)
          ≡ (if key2 b == key1 a then get zs1 a *ℤ get zs2 b else pos 0)
    get-equi_join a b r1 r2 =
        let m : ℤ = if key2 b == key1 a then pos 1 else pos 0 in
        let c = total (unit_at b) zs2 *ℤ m in
        omega (
          int_laws,
          get-total (equi_join zs1 zs2 key1 key2) (a, b) equi_join-IsReduced,
          total-equi_join (unit_at {A = A × B} (a, b)),
          total_congr (join_form (unit_at {A = A × B} (a, b))) (λ a'. unit_at a a' *ℤ c) zs1
              (λ a'. join_form-unit_at a a' b),
          total-scale (unit_at a) c zs1,
          scaled_pair (key2 b == key1 a) (get zs1 a) (total (unit_at a) zs1) (get zs2 b)
              (total (unit_at b) zs2) (get-total zs1 a r1) (get-total zs2 b r2),
        )
