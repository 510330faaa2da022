-- ===== src/Packed/Roundtrip.antt =====
-- Decoding inverts encoding.
use duck_dbsp.Prelude.{
  ℕ, zero, suc, ◌+◌, ◌*◌, ◌/◌, ◌%◌, ◌^◌, ◌<◌, ◌≡◌, refl, sym, ◌∙◌, true, false, List, [], ◌∷◌, ◌++◌,
  some, length, ◌>>=◌, some-inj, >>=-eq-some, arith, All,
}
use mathlib.Core.List.{append_assoc}
use duck_dbsp.Packed.{
  Value, null_value, boolean, tinyint, smallint, integer, bigint, uinteger, ubigint, real, double,
  date, timestamp, varchar, other, Bytes, put_raw, get_raw, get_bytes, encode_value, encode_values,
  encode_row, scalar, decode_varchar, decode_value, decode_loop, decode_values, decode_row,
  skip_value,
}

-- `v` has no more than `k` bytes.
abbrev pub Fits : ℕ → ℕ → Type 0
Fits zero v = v ≡ 0
Fits (suc k) v = Fits k (v / 256)

pub get_raw-put_raw :
    (k v : ℕ) (rest : Bytes) → Fits k v → get_raw k (put_raw k v ++ rest) ≡ some (v, rest)
unfolding get_raw put_raw
get_raw-put_raw zero v rest h = rw h refl
get_raw-put_raw (suc k) v rest h =
    let same : v % 256 + 256 * (v / 256) ≡ v = omega arith in
    rw (get_raw-put_raw k (v / 256) rest h, same) refl

pub get_bytes-append : (s rest : Bytes) → get_bytes (length s) (s ++ rest) ≡ some (s, rest)
unfolding get_bytes
get_bytes-append [] rest = refl
get_bytes-append (b ∷ s) rest = rw (get_bytes-append s rest) refl

-- The bit pattern is one of the type, and a text is shorter than 4 GiB.
abbrev pub IsWellTyped : Value → Type 0
IsWellTyped (null_value id) = id < 256
IsWellTyped (boolean b) = Unit
IsWellTyped (tinyint v) = v < 2 ^ 8
IsWellTyped (smallint v) = v < 2 ^ 16
IsWellTyped (integer v) = v < 2 ^ 32
IsWellTyped (bigint v) = v < 2 ^ 64
IsWellTyped (uinteger v) = v < 2 ^ 32
IsWellTyped (ubigint v) = v < 2 ^ 64
IsWellTyped (real v) = v < 2 ^ 32
IsWellTyped (double v) = v < 2 ^ 64
IsWellTyped (date v) = v < 2 ^ 32
IsWellTyped (timestamp v) = v < 2 ^ 64
IsWellTyped (varchar s) = length s < 2 ^ 32
IsWellTyped (other v) = Unit

-- What follows an encoded value is left over, decoded or skipped.
abbrev Reads : Value → Bytes → Bytes → Type 0
Reads v b rest = (decode_value (b ++ rest) ≡ some (v, rest)) × (skip_value (b ++ rest) ≡ some rest)

get_bytes-put_raw :
    (k v : ℕ) (rest : Bytes) → get_bytes k (put_raw k v ++ rest) ≡ some (put_raw k v, rest)
unfolding get_bytes put_raw
get_bytes-put_raw zero v rest = refl
get_bytes-put_raw (suc k) v rest = rw (get_bytes-put_raw k (v / 256) rest) refl

scalar-put_raw :
    (k : ℕ) (type : ℕ → Value) (v : ℕ) (rest : Bytes)
    → Fits k v
    → scalar k type (put_raw k v ++ rest) ≡ some (type v, rest)
unfolding scalar
scalar-put_raw k type v rest h = rw (get_raw-put_raw k v rest h) refl

-- A tag that stands for a scalar of `k` bytes.
scalar-Reads :
    (tag k : ℕ) (type : ℕ → Value) (v : ℕ) (b rest : Bytes)
    → ((p : Bytes) → decode_value (tag ∷ p) ≡ scalar k type p)
    → ((p : Bytes) → skip_value (tag ∷ p) ≡ (get_bytes k p >>= λ s. some s.1))
    → Fits k v
    → some (tag ∷ put_raw k v) ≡ some b
    → Reads (type v) b rest
scalar-Reads tag k type v b rest decodes skips fits h =
    rw (sym (some-inj (tag ∷ put_raw k v) b h)) (
      decodes (put_raw k v ++ rest) ∙ scalar-put_raw k type v rest fits,
      skips (put_raw k v ++ rest) ∙ rw (get_bytes-put_raw k v rest) refl,
    )

varchar-Reads :
    (s b rest : Bytes)
    → encode_value (varchar s) ≡ some b
    → length s < 2 ^ 32
    → Reads (varchar s) b rest
unfolding encode_value decode_value decode_varchar skip_value
varchar-Reads s b rest h t =
    let n = length s % 2 ^ 32 in
    let size : n ≡ length s = omega arith in
    let tail = put_raw 4 n ++ s in
    rw (sym (some-inj (6 ∷ tail) b h)) (
      rw
        (
          append_assoc (put_raw 4 n) s rest,
          get_raw-put_raw 4 n (s ++ rest) (omega arith),
          size,
          get_bytes-append s rest,
        )
        (refl, refl))

pub value-Reads :
    (v : Value) (b rest : Bytes) → encode_value v ≡ some b → IsWellTyped v → Reads v b rest
unfolding encode_value decode_value skip_value
value-Reads (null_value id) b rest h t =
    scalar-Reads 0 1 null_value id b rest (λ p. refl) (λ p. refl) (omega arith) h
value-Reads (boolean true) b rest h t =
    rw (sym (some-inj _ b h)) (refl, rw (get_bytes-append [] rest) refl)
value-Reads (boolean false) b rest h t =
    rw (sym (some-inj _ b h)) (refl, rw (get_bytes-append [] rest) refl)
value-Reads (tinyint v) b rest h t =
    scalar-Reads 11 1 tinyint v b rest (λ p. refl) (λ p. refl) (omega arith) h
value-Reads (smallint v) b rest h t =
    scalar-Reads 10 2 smallint v b rest (λ p. refl) (λ p. refl) (omega arith) h
value-Reads (integer v) b rest h t =
    scalar-Reads 3 4 integer v b rest (λ p. refl) (λ p. refl) (omega arith) h
value-Reads (bigint v) b rest h t =
    scalar-Reads 4 8 bigint v b rest (λ p. refl) (λ p. refl) (omega arith) h
value-Reads (uinteger v) b rest h t =
    scalar-Reads 12 4 uinteger v b rest (λ p. refl) (λ p. refl) (omega arith) h
value-Reads (ubigint v) b rest h t =
    scalar-Reads 13 8 ubigint v b rest (λ p. refl) (λ p. refl) (omega arith) h
value-Reads (real v) b rest h t =
    scalar-Reads 9 4 real v b rest (λ p. refl) (λ p. refl) (omega arith) h
value-Reads (double v) b rest h t =
    scalar-Reads 5 8 double v b rest (λ p. refl) (λ p. refl) (omega arith) h
value-Reads (date v) b rest h t =
    scalar-Reads 7 4 date v b rest (λ p. refl) (λ p. refl) (omega arith) h
value-Reads (timestamp v) b rest h t =
    scalar-Reads 8 8 timestamp v b rest (λ p. refl) (λ p. refl) (omega arith) h
value-Reads (varchar s) b rest h t = varchar-Reads s b rest h t
value-Reads (other v) b rest h t = cc

pub values-decode :
    (vs : List Value) (b rest : Bytes)
    → encode_values vs ≡ some b
    → All IsWellTyped vs
    → decode_loop (length vs) (b ++ rest) ≡ some (vs, rest)
unfolding encode_values decode_loop
values-decode [] b rest h t = rw (sym (some-inj [] b h)) refl
values-decode (v ∷ vs) b rest h t =
    let (c, here, h') =
      >>=-eq-some (encode_value v) (λ b. encode_values vs >>= λ bs. some (b ++ bs)) h in
    let (bs, there, h'') = >>=-eq-some (encode_values vs) (λ bs. some (c ++ bs)) h' in
    rw (sym (some-inj (c ++ bs) b h''), append_assoc c bs rest)
      (rw ((value-Reads v c (bs ++ rest) here t.0).0, values-decode vs bs rest there t.1) refl)

-- A row whose values are of supported types, well typed, with fewer than 2 ^ 32 columns, is decoded
-- from its bytes, whatever follows them.
pub row-decode :
    (row : List Value) (b rest : Bytes)
    → encode_row row ≡ some b
    → All IsWellTyped row
    → length row < 2 ^ 32
    → decode_row (b ++ rest) ≡ some row
unfolding encode_row decode_row decode_values
row-decode row b rest h t small =
    let n = length row % 2 ^ 32 in
    let size : n ≡ length row = omega arith in
    let (bs, there, h') = >>=-eq-some (encode_values row) (λ bs. some (put_raw 4 n ++ bs)) h in
    rw (sym (some-inj (put_raw 4 n ++ bs) b h'), append_assoc (put_raw 4 n) bs rest)
      (rw (get_raw-put_raw 4 n (bs ++ rest) (omega arith), size, values-decode row bs rest there t)
        refl)

-- So two such rows with the same bytes are one row: the bytes serve as keys.
pub row-canonical :
    (row other_row : List Value) (b : Bytes)
    → encode_row row ≡ some b
    → encode_row other_row ≡ some b
    → All IsWellTyped row
    → All IsWellTyped other_row
    → length row < 2 ^ 32
    → length other_row < 2 ^ 32
    → row ≡ other_row
row-canonical row other_row b h h' t t' small small' =
    some-inj row other_row
      (sym (row-decode row b [] h t small) ∙ row-decode other_row b [] h' t' small')
