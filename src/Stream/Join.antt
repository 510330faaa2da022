-- ===== src/Stream/Join.antt =====
-- include/dbsp_stream.hpp, IncrementalJoin: the changes that it puts out add up to the join of the
-- sums of its inputs. The index over the left delta, which `process` builds and never reads, is left
-- out.
use mathlib.Core.List.{map}
use duck_dbsp.Prelude.{◌≡◌, refl, sym, ◌∙◌, List, [], ◌∷◌, if◌then◌else◌}
use duck_dbsp.Prelude.Int.{ℤ, pos, ◌+ℤ◌, int_laws}
use duck_dbsp.Prelude.Equality.{Eq, ◌==◌, pair_eq}
use duck_dbsp.Umap.Sums.{sum, UniqueKeys, empty-UniqueKeys}
use duck_dbsp.Flat.Measures.{tally}
use duck_dbsp.Zset.{ZSet, empty, plus}
use duck_dbsp.Zset.Reduced.{IsReduced, empty-IsReduced, plus-IsReduced}
use duck_dbsp.Zset.Total.{total, total-plus, total-empty}
use duck_dbsp.Zset.Linear.{total_congr, total-add}
use duck_dbsp.Zset.Same.{◌≈◌, same_of_total}
use duck_dbsp.Indexed.{IndexedZSet, at, insert_all, probe_loop, equi_join}
use duck_dbsp.Indexed.Sums.{total_of, total_of-insert_all, insert_all-UniqueKeys, total-at}
use duck_dbsp.Indexed.Join.{
  total-probe_loop, probe_loop-IsReduced, total-at-index, total-equi_join, equi_join-IsReduced,
}
use duck_dbsp.Stream.Incremental.{IsBilinear}
use duck_dbsp.Stream.Run.{outputs, plus_all, sum_all, plus_all-IsReduced}

pub record IncrementalJoin {ℓ κ μ} (A : Type ℓ) (B : Type κ) (K : Type μ) : Type (ℓ ⊔ κ ⊔ μ) where
  pub indexed_a : IndexedZSet K A
  pub indexed_b : IndexedZSet K B

module _ {ℓ κ μ} {A : Type ℓ} {B : Type κ} {K : Type μ} ⦃ea : Eq A⦄ ⦃eb : Eq B⦄ ⦃ek : Eq K⦄
    (key_a : A → K) (key_b : B → K) where
  abbrev pub new_join : IncrementalJoin A B K
  new_join = record { indexed_a = []; indexed_b = [] }

  -- Term 2: the groups of the left index against the right delta, under each group's own key.
  groups_loop : IndexedZSet K B → IndexedZSet K A → ZSet (A × B) → ZSet (A × B)
  unfolding probe_loop
  groups_loop indexed_delta_b [] result = result
  groups_loop indexed_delta_b ((k, zset_a) ∷ groups) result =
      groups_loop indexed_delta_b groups (probe_loop (λ _. k) indexed_delta_b zset_a result)

  unfoldable pub join_delta :
      IncrementalJoin A B K → ZSet A × ZSet B → ZSet (A × B) × IncrementalJoin A B K
  unfolding groups_loop probe_loop insert_all
  join_delta s (delta_a, delta_b) =
      let indexed_delta_b : IndexedZSet K B = insert_all key_b delta_b [] in
      let term1 = probe_loop key_a indexed_delta_b delta_a empty in
      let term2 = groups_loop indexed_delta_b s.indexed_a term1 in
      let term3 = probe_loop key_a s.indexed_b delta_a term2 in
      (
        term3,
        record {
          indexed_a = insert_all key_a delta_a s.indexed_a;
          indexed_b = insert_all key_b delta_b s.indexed_b;
        },
      )

  groups_loop-IsReduced :
      (ix : IndexedZSet K B) (groups : IndexedZSet K A) (result : ZSet (A × B))
      → IsReduced result
      → IsReduced (groups_loop ix groups result)
  unfolding groups_loop
  groups_loop-IsReduced ix [] result r = r
  groups_loop-IsReduced ix ((k, z) ∷ groups) result r =
      groups_loop-IsReduced ix groups (probe_loop (λ _. k) ix z result)
        (probe_loop-IsReduced (λ _. k) ix z result r)

  total-groups_loop :
      (g : A × B → ℤ) (ix : IndexedZSet K B) (groups : IndexedZSet K A) (result : ZSet (A × B))
      → total g (groups_loop ix groups result)
        ≡ total g result +ℤ total_of (λ k a. total (λ b. g (a, b)) (at ix k)) groups
  unfolding groups_loop total_of sum
  total-groups_loop g ix [] result = omega int_laws
  total-groups_loop g ix ((k, z) ∷ groups) result = omega (
    int_laws,
    total-groups_loop g ix groups (probe_loop (λ _. k) ix z result),
    total-probe_loop g (λ _. k) ix z result,
  )

  -- The indexes hold the integrated inputs, each element under its own key.
  pub record Holds (s : IncrementalJoin A B K) (a : ZSet A) (b : ZSet B) : Type (ℓ ⊔ κ ⊔ μ) where
    pub unique_b : UniqueKeys s.indexed_b
    pub left : (g : K → A → ℤ) → total_of g s.indexed_a ≡ total (λ x. g (key_a x) x) a
    pub right : (g : K → B → ℤ) → total_of g s.indexed_b ≡ total (λ x. g (key_b x) x) b

  -- The value of the join of two Z-sets under a linear form.
  abbrev joined : (A × B → ℤ) → ZSet A → ZSet B → ℤ
  joined g a b = total (λ x. total (λ y. if key_b y == key_a x then g (x, y) else pos 0) b) a

  joined_left :
      (g : A × B → ℤ) (a da : ZSet A) (b : ZSet B)
      → joined g (plus a da) b ≡ joined g a b +ℤ joined g da b
  joined_left g a da b = total-plus _ a da

  joined_right :
      (g : A × B → ℤ) (a : ZSet A) (b db : ZSet B)
      → joined g a (plus b db) ≡ joined g a b +ℤ joined g a db
  joined_right g a b db =
      let form : A → B → ℤ = λ x y. if key_b y == key_a x then g (x, y) else pos 0 in
      omega (
        int_laws,
        total_congr (λ x. total (form x) (plus b db)) (λ x. total (form x) b +ℤ total (form x) db) a
            (λ x. total-plus (form x) b db),
        total-add (λ x. total (form x) b) (λ x. total (form x) db) a,
      )

  -- The join is linear in each of its inputs.
  pub equi_join-IsBilinear : IsBilinear (λ a b. equi_join a b key_a key_b)
  equi_join-IsBilinear = record {
    reduced = λ a b. equi_join-IsReduced a b key_a key_b;
    left = λ a a' b.
        same_of_total _ _ (equi_join-IsReduced (plus a a') b key_a key_b)
          (plus-IsReduced _ _ (equi_join-IsReduced a b key_a key_b))
          (λ g. omega (
            int_laws,
            total-equi_join (plus a a') b key_a key_b g,
            total-plus g (equi_join a b key_a key_b) (equi_join a' b key_a key_b),
            total-equi_join a b key_a key_b g,
            total-equi_join a' b key_a key_b g,
            joined_left g a a' b,
          ));
    right = λ a b b'.
        same_of_total _ _ (equi_join-IsReduced a (plus b b') key_a key_b)
          (plus-IsReduced _ _ (equi_join-IsReduced a b key_a key_b))
          (λ g. omega (
            int_laws,
            total-equi_join a (plus b b') key_a key_b g,
            total-plus g (equi_join a b key_a key_b) (equi_join a b' key_a key_b),
            total-equi_join a b key_a key_b g,
            total-equi_join a b' key_a key_b g,
            joined_right g a b b',
          ));
  }

  total-join_delta :
      (g : A × B → ℤ) (s : IncrementalJoin A B K) (a da : ZSet A) (b db : ZSet B)
      → Holds s a b
      → total g (join_delta s (da, db)).0 ≡ joined g da db +ℤ joined g a db +ℤ joined g da b
  unfolding join_delta
  total-join_delta g s a da b db h =
      let idb : IndexedZSet K B = insert_all key_b db [] in
      let term1 = probe_loop key_a idb da empty in
      let over = λ (z : ZSet A).
        total_congr (λ x. total (λ y. g (x, y)) (at idb (key_a x)))
          (λ x. total (λ y. if key_b y == key_a x then g (x, y) else pos 0) db) z
          (λ x. total-at-index (λ y. g (x, y)) key_b db (key_a x)) in
      omega (
        int_laws,
        total-probe_loop g key_a s.indexed_b da (groups_loop idb s.indexed_a term1),
        total-groups_loop g idb s.indexed_a term1,
        total-probe_loop g key_a idb da empty,
        total-empty g,
        over da,
        over a,
        h.left (λ k x. total (λ y. g (x, y)) (at idb k)),
        total_congr (λ x. total (λ y. g (x, y)) (at s.indexed_b (key_a x)))
            (λ x. total (λ y. if key_b y == key_a x then g (x, y) else pos 0) b) da
            (λ x.
              total-at (λ y. g (x, y)) s.indexed_b (key_a x) h.unique_b
              ∙ h.right (λ k y. if k == key_a x then g (x, y) else pos 0)),
      )

  join_delta-IsReduced :
      (s : IncrementalJoin A B K) (d : ZSet A × ZSet B) → IsReduced (join_delta s d).0
  unfolding join_delta
  join_delta-IsReduced s (da, db) =
      let idb : IndexedZSet K B = insert_all key_b db [] in
      let term1 = probe_loop key_a idb da empty in
      probe_loop-IsReduced key_a s.indexed_b da (groups_loop idb s.indexed_a term1) (
        groups_loop-IsReduced idb s.indexed_a term1
          (probe_loop-IsReduced key_a idb da empty empty-IsReduced))

  join_delta-Holds :
      (s : IncrementalJoin A B K) (a da : ZSet A) (b db : ZSet B)
      → Holds s a b
      → Holds (join_delta s (da, db)).1 (plus a da) (plus b db)
  unfolding join_delta
  join_delta-Holds s a da b db h = record {
    unique_b = insert_all-UniqueKeys key_b db s.indexed_b h.unique_b;
    left = λ g. omega (
      int_laws,
      total_of-insert_all g key_a da s.indexed_a,
      h.left g,
      total-plus (λ x. g (key_a x) x) a da,
    );
    right = λ g. omega (
      int_laws,
      total_of-insert_all g key_b db s.indexed_b,
      h.right g,
      total-plus (λ x. g (key_b x) x) b db,
    );
  }

  join_from :
      (g : A × B → ℤ) (s : IncrementalJoin A B K) (a : ZSet A) (b : ZSet B) (out : ZSet (A × B))
      (ds : List (ZSet A × ZSet B))
      → Holds s a b
      → total g out ≡ joined g a b
      → total g (plus_all out (outputs join_delta s ds))
        ≡ joined g (plus_all a (map (λ d. d.0) ds)) (plus_all b (map (λ d. d.1) ds))
  join_from g s a b out [] h e = e
  join_from g s a b out ((da, db) ∷ ds) h e =
      join_from g (join_delta s (da, db)).1 (plus a da) (plus b db)
        (plus out (join_delta s (da, db)).0) ds (join_delta-Holds s a da b db h)
        (omega (
          int_laws,
          total-plus g out (join_delta s (da, db)).0,
          total-join_delta g s a da b db h,
          joined_left g a da (plus b db),
          joined_right g a b db,
          joined_right g da b db,
          e,
        ))

  joined-empty : (g : A × B → ℤ) → total g empty ≡ joined g empty empty
  unfolding total tally
  joined-empty g = refl

  new_join-Holds : Holds new_join empty empty
  unfolding total_of sum total tally
  new_join-Holds = record {
    unique_b = empty-UniqueKeys K (ZSet B);
    left = λ g. refl;
    right = λ g. refl;
  }

  -- The changes that IncrementalJoin puts out over any steps add up to `equi_join` of the sums of its
  -- two input streams.
  pub join_delta_sum :
      (ds : List (ZSet A × ZSet B))
      → sum_all (outputs join_delta new_join ds)
        ≈ equi_join (sum_all (map (λ d. d.0) ds)) (sum_all (map (λ d. d.1) ds)) key_a key_b
  join_delta_sum ds =
      let a = sum_all (map (λ d. d.0) ds) in
      let b = sum_all (map (λ d. d.1) ds) in
      same_of_total (sum_all (outputs join_delta new_join ds)) (equi_join a b key_a key_b)
        (plus_all-IsReduced empty (outputs join_delta new_join ds) empty-IsReduced)
        (equi_join-IsReduced a b key_a key_b)
        (λ g.
          join_from g new_join empty empty empty ds new_join-Holds (joined-empty g)
          ∙ sym (total-equi_join a b key_a key_b g))
