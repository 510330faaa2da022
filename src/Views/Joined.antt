-- ===== src/Views/Joined.antt =====
-- include/dbsp_materialized_view.hpp, JoinView: an equality join of two tables, whose integrated
-- rows stand in one index for each side.
use duck_dbsp.Prelude.{ℕ, ◌+◌, ◌%◌, ◌^◌, [], ◌∷◌, ◌++◌, Option, none, some, if◌then◌else◌}
use duck_dbsp.Prelude.Int.{ℤ, ◌*ℤ◌}
use duck_dbsp.Prelude.Equality.{Eq, ◌==◌}
use duck_dbsp.Umap
use duck_dbsp.Zset
use duck_dbsp.Zset.{ZSet, empty}
use duck_dbsp.Indexed.{IndexedZSet, drop_empty}
use duck_dbsp.Views.{Row}

-- `T` is the type of table names, `C` that of columns, `K` that of join keys.
pub record JoinView {ℓ κ μ} (T : Type ℓ) (C : Type κ) (K : Type μ) : Type (ℓ ⊔ κ ⊔ μ) where
  pub left_table : T
  pub right_table : T
  pub left_key : Row C → K
  pub right_key : Row C → K
  pub left_indexed : IndexedZSet K (Row C)
  pub right_indexed : IndexedZSet K (Row C)
  pub flattened_result : ZSet (Row C)
  pub flattened_delta : ZSet (Row C)
  pub version : ℕ

module _ {ℓ κ μ} {T : Type ℓ} {C : Type κ} {K : Type μ} where
  abbrev pub new_join_view : T → T → (Row C → K) → (Row C → K) → JoinView T C K
  new_join_view left right left_key right_key = record {
    left_table = left;
    right_table = right;
    left_key = left_key;
    right_key = right_key;
    left_indexed = [];
    right_indexed = [];
    flattened_result = empty;
    flattened_delta = empty;
    version = 0;
  }

  unfoldable pub reset_join : JoinView T C K → JoinView T C K
  reset_join v = record v {
    left_indexed = [];
    right_indexed = [];
    flattened_result = empty;
    flattened_delta = empty;
    version = 0;
  }

module _ {κ} {C : Type κ} ⦃er : Eq (Row C)⦄ where
  -- On the delta and the result.
  unfoldable pub add_join_result :
      Row C → Row C → ℤ → ZSet (Row C) × ZSet (Row C) → ZSet (Row C) × ZSet (Row C)
  add_join_result left right weight (delta, result) =
      (Zset.insert (left ++ right) weight delta, Zset.insert (left ++ right) weight result)

  unfoldable pub join_row :
      Row C → ℤ → ZSet (Row C) → ZSet (Row C) × ZSet (Row C) → ZSet (Row C) × ZSet (Row C)
  unfolding add_join_result
  join_row left left_weight [] s = s
  join_row left left_weight ((right, right_weight) ∷ rights) s =
      join_row left left_weight rights (add_join_result left right (left_weight *ℤ right_weight) s)

  -- The two inner loops.
  unfoldable pub join_rows :
      ZSet (Row C) → ZSet (Row C) → ZSet (Row C) × ZSet (Row C) → ZSet (Row C) × ZSet (Row C)
  unfolding join_row
  join_rows [] rights s = s
  join_rows ((left, left_weight) ∷ lefts) rights s =
      join_rows lefts rights (join_row left left_weight rights s)

  -- The rows under a key of the delta against those of the other side, if it has the key.
  unfoldable pub join_found :
      (ZSet (Row C) → ZSet (Row C) × ZSet (Row C) → ZSet (Row C) × ZSet (Row C))
      → Option (ZSet (Row C))
      → ZSet (Row C) × ZSet (Row C)
      → ZSet (Row C) × ZSet (Row C)
  join_found join none s = s
  join_found join (some rows) s = join rows s

module _ {κ μ} {C : Type κ} {K : Type μ} ⦃er : Eq (Row C)⦄ ⦃ek : Eq K⦄ where
  -- `delta_indexed[key].insert(row, weight)` for each change.
  unfoldable pub index_changes :
      (Row C → K) → ZSet (Row C) → IndexedZSet K (Row C) → IndexedZSet K (Row C)
  index_changes key [] ix = ix
  index_changes key ((row, weight) ∷ changes) ix =
      index_changes key changes (Umap.update empty (key row) (Zset.insert row weight) ix)

  -- The loop that updates an integrated side: a key goes with its last row.
  unfoldable pub integrate_changes :
      (Row C → K) → ZSet (Row C) → IndexedZSet K (Row C) → IndexedZSet K (Row C)
  unfolding drop_empty
  integrate_changes key [] ix = ix
  integrate_changes key ((row, weight) ∷ changes) ix =
      integrate_changes key changes
        (drop_empty (key row) (Umap.update empty (key row) (Zset.insert row weight) ix))

  unfoldable pub join_left :
      IndexedZSet K (Row C)
      → IndexedZSet K (Row C)
      → ZSet (Row C) × ZSet (Row C)
      → ZSet (Row C) × ZSet (Row C)
  unfolding join_found join_rows
  join_left [] right_indexed s = s
  join_left ((key, left_rows) ∷ delta_indexed) right_indexed s =
      join_left delta_indexed right_indexed
        (join_found (join_rows left_rows) (Umap.find key right_indexed) s)

  unfoldable pub join_right :
      IndexedZSet K (Row C)
      → IndexedZSet K (Row C)
      → ZSet (Row C) × ZSet (Row C)
      → ZSet (Row C) × ZSet (Row C)
  unfolding join_found join_rows
  join_right [] left_indexed s = s
  join_right ((key, right_rows) ∷ delta_indexed) left_indexed s =
      join_right delta_indexed left_indexed
        (join_found (λ left_rows. join_rows left_rows right_rows) (Umap.find key left_indexed) s)

module _ {ℓ κ μ} {T : Type ℓ} {C : Type κ} {K : Type μ} ⦃et : Eq T⦄ ⦃er : Eq (Row C)⦄
    ⦃ek : Eq K⦄ where
  unfoldable pub join_left_changes : ZSet (Row C) → JoinView T C K → JoinView T C K
  unfolding index_changes integrate_changes join_left
  join_left_changes changes v =
      let (delta, result) =
        join_left (index_changes v.left_key changes []) v.right_indexed
          (empty, v.flattened_result) in
      record v {
        flattened_delta = delta;
        flattened_result = result;
        left_indexed = integrate_changes v.left_key changes v.left_indexed;
        version = (v.version + 1) % 2 ^ 64;
      }

  unfoldable pub join_right_changes : ZSet (Row C) → JoinView T C K → JoinView T C K
  unfolding index_changes integrate_changes join_right
  join_right_changes changes v =
      let (delta, result) =
        join_right (index_changes v.right_key changes []) v.left_indexed
          (empty, v.flattened_result) in
      record v {
        flattened_delta = delta;
        flattened_result = result;
        right_indexed = integrate_changes v.right_key changes v.right_indexed;
        version = (v.version + 1) % 2 ^ 64;
      }

  unfoldable pub apply_join : T → ZSet (Row C) → JoinView T C K → JoinView T C K
  unfolding join_left_changes join_right_changes
  apply_join table changes v =
      if table == v.left_table
      then join_left_changes changes v
      else if table == v.right_table
      then join_right_changes changes v
      else record v { flattened_delta = empty; version = (v.version + 1) % 2 ^ 64 }
