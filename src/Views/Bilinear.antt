-- ===== src/Views/Bilinear.antt =====
-- What JoinView holds: the equality join of all changes of its two tables.
use duck_dbsp.Prelude.{
  ℕ, ◌+◌, ◌%◌, ◌^◌, ◌≡◌, refl, ap, sym, ◌∙◌, true, false, [], ◌∷◌, ◌++◌, inl, inr, Bool-cases,
  arith,
}
use duck_dbsp.Prelude.Int.{ℤ, int_laws}
use duck_dbsp.Prelude.Equality.{Eq, ◌==◌, pair_eq}
use duck_dbsp.Umap
use duck_dbsp.Zset.{ZSet, empty, plus, map}
use duck_dbsp.Zset.Reduced.{IsReduced, empty-IsReduced, map-IsReduced}
use duck_dbsp.Zset.Total.{total, total-empty, total-map}
use duck_dbsp.Zset.Same.{◌≈◌, same_of_total}
use duck_dbsp.Stream.Run.{plus_all, sum_all}
use duck_dbsp.Indexed.{IndexedZSet, equi_join}
use duck_dbsp.Indexed.Join.{total-equi_join}
use duck_dbsp.Views.{Row, Events, run, changes_to}
use duck_dbsp.Views.JoinForms.{join_left-IsReduced, join_right-IsReduced}
use duck_dbsp.Views.Joined.{
  JoinView, new_join_view, index_changes, join_found, join_left, join_left_changes,
  join_right_changes, apply_join,
}
use duck_dbsp.Views.JoinIndexes.{
  Indexes, empty-Indexes, integrate_changes-Indexes, joined, joined-plus_left, joined-plus_right,
  left_change, right_change,
}

module _ {ℓ} {T : Type ℓ} ⦃et : Eq T⦄ where
  apart : (t l r : T) → (l == r) ≡ false → (t == l) ≡ true → (t == r) ≡ false
  apart t l r ne e = ground (arith, et.equal_iff l r, et.equal_iff t l, et.equal_iff t r)

  not_either : (t l r : T) → (l == r) ≡ true → (t == l) ≡ false → (t == r) ≡ false
  not_either t l r same ne = ground (arith, et.equal_iff l r, et.equal_iff t l, et.equal_iff t r)

module _ {κ μ} {C : Type κ} {K : Type μ} ⦃er : Eq (Row C)⦄ ⦃ek : Eq K⦄ where
  join_left-none :
      (d : IndexedZSet K (Row C)) (s : ZSet (Row C) × ZSet (Row C)) → join_left d [] s ≡ s
  unfolding join_left join_found Umap.find
  join_left-none [] s = refl
  join_left-none ((k, lefts) ∷ d) s = join_left-none d s

module _ {ℓ κ μ} {T : Type ℓ} {C : Type κ} {K : Type μ} ⦃et : Eq T⦄ ⦃er : Eq (Row C)⦄
    ⦃ek : Eq K⦄ where
  -- A view that has taken in `zl` of its left and `zr` of its right table.
  record HasJoined (v : JoinView T C K) (zl zr : ZSet (Row C)) : Type (ℓ ⊔ κ ⊔ μ) where
    left : Indexes v.left_key v.left_indexed zl
    right : Indexes v.right_key v.right_indexed zr
    result-IsReduced : IsReduced v.flattened_result
    result-total :
        (g : Row C → ℤ) → total g v.flattened_result ≡ joined v.left_key v.right_key g zl zr

  left-HasJoined :
      (changes : ZSet (Row C)) (v : JoinView T C K) (zl zr : ZSet (Row C))
      → HasJoined v zl zr
      → HasJoined (join_left_changes changes v) (plus zl changes) zr
  unfolding join_left_changes
  left-HasJoined changes v zl zr valid = record {
    left = integrate_changes-Indexes v.left_key changes v.left_indexed zl valid.left;
    right = valid.right;
    result-IsReduced =
        join_left-IsReduced v.right_indexed (index_changes v.left_key changes [])
          (empty, v.flattened_result) valid.result-IsReduced;
    result-total = λ g. omega (
      int_laws,
      valid.result-total g,
      left_change v.left_key v.right_key g changes zr v.right_indexed (empty, v.flattened_result)
          valid.right,
      joined-plus_left v.left_key v.right_key g zl changes zr,
    );
  }

  right-HasJoined :
      (changes : ZSet (Row C)) (v : JoinView T C K) (zl zr : ZSet (Row C))
      → HasJoined v zl zr
      → HasJoined (join_right_changes changes v) zl (plus zr changes)
  unfolding join_right_changes
  right-HasJoined changes v zl zr valid = record {
    left = valid.left;
    right = integrate_changes-Indexes v.right_key changes v.right_indexed zr valid.right;
    result-IsReduced =
        join_right-IsReduced v.left_indexed (index_changes v.right_key changes [])
          (empty, v.flattened_result) valid.result-IsReduced;
    result-total = λ g. omega (
      int_laws,
      valid.result-total g,
      right_change v.left_key v.right_key g changes zl v.left_indexed (empty, v.flattened_result)
          valid.left,
      joined-plus_right v.left_key v.right_key g zl zr changes,
    );
  }

  other-HasJoined :
      (n : ℕ) (v : JoinView T C K) (zl zr : ZSet (Row C))
      → HasJoined v zl zr
      → HasJoined (record v { flattened_delta = empty; version = n }) zl zr
  other-HasJoined n v zl zr valid = record {
    left = valid.left;
    right = valid.right;
    result-IsReduced = valid.result-IsReduced;
    result-total = valid.result-total;
  }

  join_from :
      (events : Events T (Row C)) (v : JoinView T C K) (zl zr : ZSet (Row C))
      → (v.left_table == v.right_table) ≡ false
      → HasJoined v zl zr
      → let v' = run apply_join events v in
        IsReduced v'.flattened_result
        × ((g : Row C → ℤ)
            → total g v'.flattened_result
              ≡ joined v.left_key v.right_key g
                  (plus_all zl (changes_to v.left_table events))
                  (plus_all zr (changes_to v.right_table events)))
  unfolding apply_join join_left_changes join_right_changes
  join_from [] v zl zr ne valid = (valid.result-IsReduced, valid.result-total)
  join_from ((table, changes) ∷ events) v zl zr ne valid =
      elim (Bool-cases (table == v.left_table)) [
        | inl e ↦
            rw (run, apply_join, e, apart table v.left_table v.right_table ne e)
              (join_from events (join_left_changes changes v) (plus zl changes) zr ne
                (left-HasJoined changes v zl zr valid))
        | inr e ↦ elim (Bool-cases (table == v.right_table)) [
          | inl e' ↦
              rw (run, apply_join, e, e')
                (join_from events (join_right_changes changes v) zl (plus zr changes) ne
                  (right-HasJoined changes v zl zr valid))
          | inr e' ↦
              rw (run, apply_join, e, e')
                (join_from events
                  (record v { flattened_delta = empty; version = (v.version + 1) % 2 ^ 64 }) zl zr
                  ne (other-HasJoined _ v zl zr valid))
        ]
      ]

  -- After any changes of tables, JoinView over two different tables holds, up to the order of slots,
  -- the joined pairs of the sums of their changes, each pair flattened to one row.
  pub join_view-run :
      (left right : T) (lkey rkey : Row C → K) (events : Events T (Row C))
      → (left == right) ≡ false
      → (run apply_join events (new_join_view left right lkey rkey)).flattened_result
        ≈ map
            (λ p. p.0 ++ p.1)
            (equi_join
              (sum_all (changes_to left events))
              (sum_all (changes_to right events))
              lkey
              rkey)
  join_view-run left right lkey rkey events ne =
      let zl = sum_all (changes_to left events) in
      let zr = sum_all (changes_to right events) in
      let flat : Row C × Row C → Row C = λ p. p.0 ++ p.1 in
      let (r, h) = join_from events (new_join_view left right lkey rkey) empty empty ne record {
        left = empty-Indexes lkey;
        right = empty-Indexes rkey;
        result-IsReduced = empty-IsReduced;
        result-total = λ g. total-empty g ∙ sym (total-empty _);
      } in
      same_of_total _ (map flat (equi_join zl zr lkey rkey)) r
        (map-IsReduced flat (equi_join zl zr lkey rkey))
        (λ g.
          h g
          ∙ sym (
              total-map g flat (equi_join zl zr lkey rkey)
              ∙ total-equi_join zl zr lkey rkey (λ p. g (flat p))))

  -- What a self-join takes in goes to the left index, and the right one stays empty.
  self_join_from :
      (events : Events T (Row C)) (v : JoinView T C K)
      → (v.left_table == v.right_table) ≡ true
      → v.right_indexed ≡ []
      → v.flattened_result ≡ empty
      → (run apply_join events v).flattened_result ≡ empty
  unfolding apply_join join_left_changes
  self_join_from [] v e none_right none_yet = none_yet
  self_join_from ((table, changes) ∷ events) v e none_right none_yet =
      elim (Bool-cases (table == v.left_table)) [
        | inl hit ↦
            let kept =
              join_left-none (index_changes v.left_key changes []) (empty, v.flattened_result) in
            rw (run, apply_join, hit)
              (self_join_from events (join_left_changes changes v) e none_right (
                unfold join_left_changes in
                rw none_right (ap (λ (q : ZSet (Row C) × ZSet (Row C)). q.1) kept ∙ none_yet)))
        | inr miss ↦
            rw (run, apply_join, miss, not_either table v.left_table v.right_table e miss)
              (self_join_from events
                (record v { flattened_delta = empty; version = (v.version + 1) % 2 ^ 64 }) e
                none_right none_yet)
      ]

  -- JoinView of a table with itself runs only the branch of the left side: after any changes its
  -- result has no row.
  pub self_join-run :
      (t : T) (lkey rkey : Row C → K) (events : Events T (Row C))
      → (run apply_join events (new_join_view t t lkey rkey)).flattened_result ≡ empty
  self_join-run t lkey rkey events =
      self_join_from events (new_join_view t t lkey rkey) ((et.equal_iff t t).1 refl) refl refl
