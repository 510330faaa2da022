-- ===== src/DistinctOn/Order.antt =====
-- The order of rows: `DuckDBRow::operator<`, by which the comparator breaks ties.
use duck_dbsp.Prelude.{◌≡◌, refl, ap₂, true, false, [], ◌∷◌, arith, length}
use duck_dbsp.Views.{Row}
use duck_dbsp.DistinctOn.{Values, columns_less, row_less, row_before}
use duck_dbsp.DistinctOn.First.{IsTotalOrder}

-- What the code relies on: `<` of duckdb::Value orders the values that are not NULL, and there is one
-- NULL.
pub record IsValueOrder {κ} {C : Type κ} (values : Values C) : Type κ where
  pub one_null : (a b : C) → values.is_null a ≡ true → values.is_null b ≡ true → a ≡ b
  pub less_trans :
      (a b c : C) → values.less a b ≡ true → values.less b c ≡ true → values.less a c ≡ true
  pub less_irrefl : (a : C) → values.less a a ≡ false
  pub less_total : (a b : C) → values.less a b ≡ false → values.less b a ≡ false → a ≡ b

module _ {κ} {C : Type κ} (values : Values C) (order : IsValueOrder values) where
  columns_less_trans :
      (xs ys zs : Row C)
      → columns_less values xs ys ≡ true
      → columns_less values ys zs ≡ true
      → columns_less values xs zs ≡ true
  unfolding columns_less
  columns_less_trans [] ys zs h k = cc
  columns_less_trans (x ∷ xs) [] zs h k = cc
  columns_less_trans (x ∷ xs) (y ∷ ys) [] h k = cc
  columns_less_trans (x ∷ xs) (y ∷ ys) (z ∷ zs) h k = ground (
    arith,
    columns_less_trans xs ys zs,
    order.less_trans x y z,
    order.less_trans y z x,
    order.less_trans z x y,
    order.less_total x y,
    order.less_total y z,
    order.less_total x z,
    order.less_irrefl x,
    order.less_irrefl y,
    order.less_irrefl z,
  )

  columns_less_irrefl : (xs : Row C) → columns_less values xs xs ≡ false
  unfolding columns_less
  columns_less_irrefl [] = refl
  columns_less_irrefl (x ∷ xs) = ground (arith, columns_less_irrefl xs, order.less_irrefl x)

  columns_less-total :
      (xs ys : Row C)
      → length xs ≡ length ys
      → columns_less values xs ys ≡ false
      → columns_less values ys xs ≡ false
      → xs ≡ ys
  unfolding columns_less
  columns_less-total [] [] e h k = refl
  columns_less-total [] (y ∷ ys) e h k = absurd (ground arith)
  columns_less-total (x ∷ xs) [] e h k = absurd (ground arith)
  columns_less-total (x ∷ xs) (y ∷ ys) e h k =
      ap₂ (λ (c : C) (cs : Row C). c ∷ cs)
        (ground (arith, order.one_null x y, order.less_total x y))
        (columns_less-total xs ys (omega (arith, e))
          (ground (arith, order.one_null x y, order.less_total x y, order.less_irrefl x))
          (ground (arith, order.one_null x y, order.less_total x y, order.less_irrefl x)))

  -- `DuckDBRow::operator<` is a strict total order of the rows, whatever their sizes, if `<` of the values
  -- orders those that are not NULL and there is one NULL.
  pub row_less-IsTotalOrder : IsTotalOrder (row_less values)
  unfolding row_less
  row_less-IsTotalOrder = record {
    trans = λ a b c h k. ground (arith, columns_less_trans a b c);
    irrefl = λ a. ground (arith, columns_less_irrefl a);
    total = λ a b h k. columns_less-total a b (ground arith) (ground arith) (ground arith);
  }

  pub row_before-IsTotalOrder : IsTotalOrder (row_before values [])
  unfolding row_before
  row_before-IsTotalOrder = row_less-IsTotalOrder
