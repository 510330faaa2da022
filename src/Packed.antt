-- ===== src/Packed.antt =====
-- include/dbsp_packed_row.hpp: a row as a string of bytes. A byte is a number below 256, and a scalar
-- of `k` bytes is its bit pattern, a number below 256 ^ k.
pub mod Roundtrip
use duck_dbsp.Prelude.{
  ℕ, zero, suc, ◌+◌, ◌*◌, ◌/◌, ◌%◌, ◌^◌, ◌==◌, Bool, true, false, List, [], ◌∷◌, ◌++◌, Option, none,
  some, if◌then◌else◌, length, ◌>>=◌,
}

-- duckdb::Value as the codec sees it: the type and the bit pattern. A null keeps the number of its
-- type. Values of types that the codec does not take are told apart by a number.
pub data Value : Type 0 where
  null_value : ℕ → Value
  boolean : Bool → Value
  tinyint smallint integer bigint uinteger ubigint real double date timestamp : ℕ → Value
  varchar : List ℕ → Value
  other : ℕ → Value

abbrev pub Bytes : Type 0
Bytes = List ℕ

-- `put_raw` of a scalar of `k` bytes, little-endian.
unfoldable pub put_raw : ℕ → ℕ → Bytes
put_raw zero v = []
put_raw (suc k) v = v % 256 ∷ put_raw k (v / 256)

-- `get_raw`; `none` is a read past the end.
unfoldable pub get_raw : ℕ → Bytes → Option (ℕ × Bytes)
get_raw zero p = some (0, p)
get_raw (suc k) [] = none
get_raw (suc k) (b ∷ p) = get_raw k p >>= λ r. some (b + 256 * r.0, r.1)

-- `std::string s(p, n); p += n;`
unfoldable pub get_bytes : ℕ → Bytes → Option (Bytes × Bytes)
get_bytes zero p = some ([], p)
get_bytes (suc n) [] = none
get_bytes (suc n) (b ∷ p) = get_bytes n p >>= λ r. some (b ∷ r.0, r.1)

-- The bytes that are appended; `none` is the result `false`.
unfoldable pub encode_value : Value → Option Bytes
encode_value (null_value id) = some (0 ∷ put_raw 1 id)
encode_value (boolean b) = some ((if b then 2 else 1) ∷ [])
encode_value (tinyint v) = some (11 ∷ put_raw 1 v)
encode_value (smallint v) = some (10 ∷ put_raw 2 v)
encode_value (integer v) = some (3 ∷ put_raw 4 v)
encode_value (bigint v) = some (4 ∷ put_raw 8 v)
encode_value (uinteger v) = some (12 ∷ put_raw 4 v)
encode_value (ubigint v) = some (13 ∷ put_raw 8 v)
encode_value (real v) = some (9 ∷ put_raw 4 v)
encode_value (double v) = some (5 ∷ put_raw 8 v)
encode_value (date v) = some (7 ∷ put_raw 4 v)
encode_value (timestamp v) = some (8 ∷ put_raw 8 v)
encode_value (varchar s) = some (6 ∷ (put_raw 4 (length s % 2 ^ 32) ++ s))
encode_value (other v) = none

unfoldable pub encode_values : List Value → Option Bytes
unfolding encode_value
encode_values [] = some []
encode_values (v ∷ vs) = encode_value v >>= λ b. encode_values vs >>= λ bs. some (b ++ bs)

-- The column count goes first.
unfoldable pub encode_row : List Value → Option Bytes
unfolding encode_values
encode_row row = encode_values row >>= λ bs. some (put_raw 4 (length row % 2 ^ 32) ++ bs)

-- A scalar of `k` bytes as a value.
unfoldable pub scalar : ℕ → (ℕ → Value) → Bytes → Option (Value × Bytes)
scalar k type p = get_raw k p >>= λ r. some (type r.0, r.1)

unfoldable pub decode_varchar : Bytes → Option (Value × Bytes)
decode_varchar p = get_raw 4 p >>= λ r. get_bytes r.0 r.1 >>= λ s. some (varchar s.0, s.1)

-- Past the tag. An unknown tag gives the untyped null, whose type has the number 1.
unfoldable pub decode_tagged : ℕ → Bytes → Option (Value × Bytes)
decode_tagged t p =
    if t == 0
    then scalar 1 null_value p
    else if t == 1
    then some (boolean false, p)
    else if t == 2
    then some (boolean true, p)
    else if t == 11
    then scalar 1 tinyint p
    else if t == 10
    then scalar 2 smallint p
    else if t == 3
    then scalar 4 integer p
    else if t == 4
    then scalar 8 bigint p
    else if t == 12
    then scalar 4 uinteger p
    else if t == 13
    then scalar 8 ubigint p
    else if t == 9
    then scalar 4 real p
    else if t == 5
    then scalar 8 double p
    else if t == 7
    then scalar 4 date p
    else if t == 8
    then scalar 8 timestamp p
    else if t == 6
    then decode_varchar p
    else some (null_value 1, p)

unfoldable pub decode_value : Bytes → Option (Value × Bytes)
unfolding decode_tagged
decode_value [] = none
decode_value (t ∷ p) = decode_tagged t p

-- `n` values.
unfoldable pub decode_loop : ℕ → Bytes → Option (List Value × Bytes)
unfolding decode_value
decode_loop zero p = some ([], p)
decode_loop (suc n) p = decode_value p >>= λ v. decode_loop n v.1 >>= λ vs. some (v.0 ∷ vs.0, vs.1)

unfoldable pub decode_values : Bytes → Option (List Value × Bytes)
unfolding decode_loop
decode_values p = get_raw 4 p >>= λ r. decode_loop r.0 r.1

-- What follows the row is not read.
unfoldable pub decode_row : Bytes → Option (List Value)
unfolding decode_values
decode_row bytes = decode_values bytes >>= λ r. some r.0

-- windowrows::skip_value: `none` is the result `false`. The tag gives the bytes to skip, or none for
-- an unknown tag.
unfoldable pub skip_size : ℕ → Option ℕ
skip_size t =
    if t == 0
    then some 1
    else if t == 11
    then some 1
    else if t == 1
    then some 0
    else if t == 2
    then some 0
    else if t == 10
    then some 2
    else if t == 3
    then some 4
    else if t == 12
    then some 4
    else if t == 9
    then some 4
    else if t == 7
    then some 4
    else if t == 4
    then some 8
    else if t == 13
    then some 8
    else if t == 5
    then some 8
    else if t == 8
    then some 8
    else none

unfoldable pub skip_value : Bytes → Option Bytes
unfolding skip_size
skip_value [] = none
skip_value (t ∷ p) =
    if t == 6
    then (get_raw 4 p >>= λ r. get_bytes r.0 r.1 >>= λ s. some s.1)
    else skip_size t >>= λ n. get_bytes n p >>= λ s. some s.1
