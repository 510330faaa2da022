-- ===== src/DistinctOn.antt =====
-- include/dbsp_distinct_on.hpp, NativeDistinctOnView: the first row of each partition of a table.
-- duckdb::Value is a parameter.
pub mod Result
pub mod Ops
pub mod First
pub mod Partitions
pub mod Least
pub mod Order
pub mod Kept
use duck_dbsp.Prelude.{
  ℕ, zero, suc, ◌+◌, ◌%◌, ◌^◌, Bool, true, false, List, [], ◌∷◌, ◌++◌, Option, none, some,
  if◌then◌else◌, not, ltb, length, get_elem?, ◌==◌ as nat_equal,
}
use duck_dbsp.Prelude.Int.{ℤ, pos, negsuc}
use duck_dbsp.Prelude.Equality.{Eq, ◌==◌}
use duck_dbsp.Umap
use duck_dbsp.Umap.{Umap}
use duck_dbsp.Zset
use duck_dbsp.Zset.{ZSet, empty}
use duck_dbsp.Views.{Row}

pub record SortColumn : Type 0 where
  pub column_idx : ℕ
  pub ascending : Bool
  pub nulls_first : Bool

-- What the code uses of duckdb::Value: the value `Value()`, `IsNull`, `==` and `<`.
pub record Values {κ} (C : Type κ) : Type κ where
  pub null : C
  pub is_null : C → Bool
  pub equal : C → C → Bool
  pub less : C → C → Bool

module _ {κ} {C : Type κ} (values : Values C) where
  -- The loop of `DuckDBRow::operator<`, on rows of one size.
  unfoldable pub columns_less : Row C → Row C → Bool
  columns_less [] ys = false
  columns_less (a ∷ xs) [] = false
  columns_less (a ∷ xs) (b ∷ ys) =
      let rest = columns_less xs ys in
      if values.is_null a
      then (if values.is_null b then rest else true)
      else if values.is_null b
      then false
      else if values.less a b
      then true
      else if values.less b a
      then false
      else rest

  unfoldable pub row_less : Row C → Row C → Bool
  unfolding columns_less
  row_less a b =
      if nat_equal (length a) (length b) then columns_less a b else ltb (length a) (length b)

  -- One sort column: whether `a` goes first, if that column settles it.
  unfoldable pub column_before : Option C → Option C → SortColumn → Option Bool
  column_before none b col = none
  column_before (some a) none col = none
  column_before (some a) (some b) col =
      if values.is_null a
      then (if values.is_null b then none else some col.nulls_first)
      else if values.is_null b
      then some (not col.nulls_first)
      else if values.equal a b
      then none
      else some (if col.ascending then values.less a b else not (values.less a b))

  -- `RowComparator::operator()`.
  unfoldable pub row_before : List SortColumn → Row C → Row C → Bool
  unfolding row_less column_before
  row_before [] a b = row_less a b
  row_before (col ∷ cols) a b =
      Umap.or_default (row_before cols a b)
        (column_before (get_elem? a col.column_idx) (get_elem? b col.column_idx) col)

  unfoldable pub extract_partition_key : List ℕ → Row C → Row C
  extract_partition_key [] row = []
  extract_partition_key (idx ∷ keys) row =
      Umap.or_default values.null (get_elem? row idx) ∷ extract_partition_key keys row

-- std::multiset as far as the source uses it: a list in the comparator's order.
module _ {ℓ} {R : Type ℓ} (before : R → R → Bool) where
  -- Behind the rows that the comparator does not put after it.
  unfoldable pub insert_row : R → List R → List R
  insert_row x [] = x ∷ []
  insert_row x (y ∷ ys) = if before x y then x ∷ (y ∷ ys) else y ∷ insert_row x ys

  -- `find` and `erase`: the first row that the comparator does not tell from it.
  unfoldable pub erase_row : R → List R → List R
  erase_row x [] = []
  erase_row x (y ∷ ys) =
      if before y x then y ∷ erase_row x ys else if before x y then y ∷ ys else ys

  unfoldable pub insert_times : ℕ → R → List R → List R
  unfolding insert_row
  insert_times zero x rows = rows
  insert_times (suc n) x rows = insert_times n x (insert_row x rows)

  unfoldable pub erase_times : ℕ → R → List R → List R
  unfolding erase_row
  erase_times zero x rows = rows
  erase_times (suc n) x rows = erase_times n x (erase_row x rows)

  -- Update partition rows.
  unfoldable pub update_rows : R → ℤ → List R → List R
  unfolding insert_times erase_times
  update_rows x (pos n) rows = insert_times n x rows
  update_rows x (negsuc n) rows = erase_times (suc n) x rows

abbrev pub first {ℓ} : {R : Type ℓ} → List R → Option R
first [] = none
first (x ∷ xs) = some x

abbrev pub is_empty {ℓ} : {R : Type ℓ} → List R → Bool
is_empty [] = true
is_empty (x ∷ xs) = false

module _ {ℓ} {R : Type ℓ} ⦃er : Eq R⦄ where
  abbrev pub insert_first : Option R → ℤ → ZSet R → ZSet R
  insert_first none w z = z
  insert_first (some x) w z = Zset.insert x w z

  abbrev pub same_first : Option R → Option R → Bool
  same_first none none = true
  same_first none (some y) = false
  same_first (some x) none = false
  same_first (some x) (some y) = x == y

  -- Propagate changes if the first row changed.
  unfoldable pub propagate : Option R → Option R → ZSet R → ZSet R
  propagate old_first new_first delta =
      if same_first old_first new_first
      then delta
      else insert_first new_first (pos 1) (insert_first old_first (negsuc 0) delta)

  module _ {κ} {K : Type κ} ⦃ek : Eq K⦄ (before : R → R → Bool) (key_of : R → K) where
    -- A round of the loop of `apply_changes`: the partitions and the delta.
    unfoldable pub partition_round : R → ℤ → Umap K (List R) × ZSet R → Umap K (List R) × ZSet R
    unfolding update_rows propagate
    partition_round row weight (partitions, delta) =
        let key = key_of row in
        let old = Umap.or_default [] (Umap.find key partitions) in
        let new = update_rows before row weight old in
        let written = Umap.update [] key (λ _. new) partitions in
        (
          if is_empty new then Umap.erase key written else written,
          propagate (first old) (first new) delta,
        )

    unfoldable pub partition_rounds : ZSet R → Umap K (List R) × ZSet R → Umap K (List R) × ZSet R
    unfolding partition_round
    partition_rounds [] s = s
    partition_rounds ((row, weight) ∷ changes) s =
        partition_rounds changes (partition_round row weight s)

  -- The loop of `get_result`.
  unfoldable pub first_rows {κ} : {K : Type κ} → Umap K (List R) → ZSet R → ZSet R
  first_rows [] result = result
  first_rows ((key, rows) ∷ partitions) result =
      first_rows partitions (insert_first (first rows) (pos 1) result)

pub record DistinctOnView {ℓ κ} (T : Type ℓ) (C : Type κ) : Type (ℓ ⊔ κ) where
  pub source_table : T
  pub partition_keys : List ℕ
  pub sort_columns : List SortColumn
  pub partitions : Umap (Row C) (List (Row C))
  pub result : ZSet (Row C)
  pub result_valid : Bool
  pub delta : ZSet (Row C)
  pub version : ℕ

module _ {ℓ κ} {T : Type ℓ} {C : Type κ} where
  abbrev pub new_distinct_on : T → List ℕ → List SortColumn → DistinctOnView T C
  new_distinct_on table keys columns = record {
    source_table = table;
    partition_keys = keys;
    sort_columns = columns;
    partitions = [];
    result = empty;
    result_valid = true;
    delta = empty;
    version = 0;
  }

  unfoldable pub set_result : ZSet (Row C) → DistinctOnView T C → DistinctOnView T C
  set_result result v = record v {
    result = result;
    result_valid = true;
    version = (v.version + 1) % 2 ^ 64;
  }

  unfoldable pub reset : DistinctOnView T C → DistinctOnView T C
  reset v = record v {
    partitions = [];
    result = empty;
    result_valid = true;
    delta = empty;
    version = 0;
  }

module _ {ℓ κ} {T : Type ℓ} {C : Type κ} ⦃et : Eq T⦄ ⦃er : Eq (Row C)⦄ (values : Values C) where
  unfoldable pub apply_changes : T → ZSet (Row C) → DistinctOnView T C → DistinctOnView T C
  unfolding partition_rounds row_before extract_partition_key
  apply_changes table changes v =
      let (partitions, delta) =
        partition_rounds (row_before values v.sort_columns)
          (extract_partition_key values v.partition_keys) changes (v.partitions, empty) in
      if table == v.source_table
      then record v {
        partitions = partitions;
        result = empty;
        result_valid = false;
        delta = delta;
        version = (v.version + 1) % 2 ^ 64;
      }
      else record v { delta = empty }

  -- `get_result` keeps what it has rebuilt.
  unfoldable pub with_result : DistinctOnView T C → DistinctOnView T C
  unfolding first_rows
  with_result v =
      if v.result_valid
      then v
      else record v { result = first_rows v.partitions empty; result_valid = true }

  unfoldable pub get_result : DistinctOnView T C → ZSet (Row C)
  unfolding with_result
  get_result v = (with_result v).result
