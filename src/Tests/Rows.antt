-- ===== src/Tests/Rows.antt =====
-- Tests of include/dbsp_packed_row.hpp, include/dbsp_checkpoint.hpp and include/dbsp_window_rows.hpp.
use duck_dbsp.Prelude.{
  ◌⊎◌, ◌+◌, ◌-◌, ℕ, ◌<◌, ◌≤◌, ◌^◌, ◌≡◌, refl, ap, sym, ◌∙◌, true, false, [], ◌∷◌, ◌++◌, some, All,
  length, get_elem?, arith, some-inj,
}
use duck_dbsp.Prelude.Int.{ltb_ℤ, sub_ℕ}
use duck_dbsp.Packed.{
  null_value, integer, varchar, other, Bytes, encode_value, encode_values, encode_row, decode_row,
  put_raw, skip_value, skip_size, get_bytes,
}
use duck_dbsp.Packed.Roundtrip.{IsWellTyped, row-decode}
use duck_dbsp.Blob.{
  byte_string_of, fixed, truncated, overrun, ok, byte_string, write_bytes, write_u64,
}
use duck_dbsp.Blob.Safety.{byte_string_of-inside}
use duck_dbsp.Blob.Roundtrip.{at, byte_string-write_bytes}
use duck_dbsp.WindowRows.{
  Row, WindowRowStore, packed, new_store, row_at, size, remove_at, overwrite_at,
}
use duck_dbsp.WindowRows.Arena.{IsStorable, Stored, nil, cons}
use duck_dbsp.WindowRows.Compaction.{IsTight}
use duck_dbsp.WindowRows.Refines.{Represents}
use duck_dbsp.WindowRows.Run.{
  push, insert, erase, run_store, run_rows, row_at-run_store, remove_at-IsTight,
}
use duck_dbsp.WindowRows.Search.{EqualRange, lower_bound, upper_bound, bounds-EqualRange}
use duck_dbsp.WindowRows.Checkpoint.{restore_packed, serialize_packed, lens_bytes, live_bytes}
use duck_dbsp.WindowRows.Restored.{restore_packed-serialize_packed}

abbrev small_row : Row
small_row = integer 7 ∷ varchar (104 ∷ 105 ∷ []) ∷ null_value 13 ∷ []

abbrev small_bytes : Bytes
small_bytes = 3 ∷ 0 ∷ 0 ∷ 0 ∷ 3 ∷ 7 ∷ 0 ∷ 0 ∷ 0 ∷ 6 ∷ 2 ∷ 0 ∷ 0 ∷ 0 ∷ 104 ∷ 105 ∷ 0 ∷ 13 ∷ []

small_encoded : encode_row small_row ≡ some small_bytes
unfolding encode_row encode_values encode_value put_raw
small_encoded = refl

small_typed : All IsWellTyped small_row
small_typed = (omega arith, (omega arith, (omega arith, tt)))

skip_first : skip_value (3 ∷ 7 ∷ 0 ∷ 0 ∷ 0 ∷ 0 ∷ 13 ∷ []) ≡ some (0 ∷ 13 ∷ [])
unfolding skip_value skip_size get_bytes
skip_first = refl

row-decode_example : decode_row (small_bytes ++ (9 ∷ [])) ≡ some small_row
row-decode_example =
    row-decode small_row small_bytes (9 ∷ []) small_encoded small_typed (omega arith)

byte_string-write_bytes_example :
    byte_string (at (1 ∷ []) (write_bytes (7 ∷ 8 ∷ []) ++ []))
    ≡ ok (7 ∷ 8 ∷ []) (at ((1 ∷ []) ++ write_bytes (7 ∷ 8 ∷ [])) [])
unfolding write_bytes write_u64 put_raw
byte_string-write_bytes_example = byte_string-write_bytes (1 ∷ []) (7 ∷ 8 ∷ []) [] (omega arith)

-- Two bytes that are there, and four that are not.
byte_string_of-inside_example :
    ((4 < 2 + 2)
      × (byte_string_of 2 (at (5 ∷ 6 ∷ []) (7 ∷ 8 ∷ [])) ≡ truncated)
      × (fixed 2 (at (5 ∷ 6 ∷ []) (7 ∷ 8 ∷ [])) ≡ truncated))
    ⊎ ((2 + 2 ≤ 4)
        × ((s : Bytes) × (byte_string_of 2 (at (5 ∷ 6 ∷ []) (7 ∷ 8 ∷ []))
              ≡ ok s (record { blob = 5 ∷ 6 ∷ 7 ∷ 8 ∷ []; pos = 2 + 2 }))
            × (length s ≡ 2))
        × ((v : ℕ) × (fixed 2 (at (5 ∷ 6 ∷ []) (7 ∷ 8 ∷ []))
              ≡ ok v (record { blob = 5 ∷ 6 ∷ 7 ∷ 8 ∷ []; pos = 2 + 2 }))))
byte_string_of-inside_example =
    byte_string_of-inside (at (5 ∷ 6 ∷ []) (7 ∷ 8 ∷ [])) 2 (omega arith) (omega arith)

-- A length near 2 ^ 64 passes the check, as the sum wraps, and the read runs past the end.
wrapped_length : byte_string_of (2 ^ 64 - 2) (at (5 ∷ 6 ∷ []) (7 ∷ [])) ≡ overrun
unfolding byte_string_of get_bytes
wrapped_length = refl

small-IsStorable : IsStorable small_row
small-IsStorable = record {
  well_typed = small_typed;
  few_columns = omega arith;
  short = λ b e. omega (arith, ap length (some-inj small_bytes b (sym small_encoded ∙ e)));
}

-- A row that the codec does not take.
abbrev odd_row : Row
odd_row = other 1 ∷ []

odd-IsStorable : IsStorable odd_row
unfolding encode_row encode_values encode_value
odd-IsStorable = record { well_typed = (tt, tt); few_columns = omega arith; short = λ b e. cc }

row_at-run_store_example :
    (row_at
        (run_store (push small_row ∷ insert 0 small_row ∷ push odd_row ∷ erase 0 ∷ []) new_store)
        1
      ≡ get_elem?
          (run_rows (push small_row ∷ insert 0 small_row ∷ push odd_row ∷ erase 0 ∷ []) [])
          1)
    × (size
          (run_store (push small_row ∷ insert 0 small_row ∷ push odd_row ∷ erase 0 ∷ []) new_store)
        ≡ length (run_rows (push small_row ∷ insert 0 small_row ∷ push odd_row ∷ erase 0 ∷ []) []))
row_at-run_store_example =
    row_at-run_store (push small_row ∷ insert 0 small_row ∷ push odd_row ∷ erase 0 ∷ []) 1
      (small-IsStorable, ((small-IsStorable, omega arith), (odd-IsStorable, (omega arith, tt))))

abbrev one_packed : WindowRowStore
one_packed = record {
  mode = packed;
  arena = small_bytes;
  slots = record { off = 0; len = 18 } ∷ [];
  dead = 0;
  rows = [];
}

one-Stored : Stored small_bytes (record { off = 0; len = 18 } ∷ []) (small_row ∷ [])
one-Stored =
    cons
      record {
        before = [];
        bytes = small_bytes;
        after = [];
        whole = refl;
        at = refl;
        long = refl;
        encoded = small_encoded;
        storable = small-IsStorable;
      }
      nil

remove_at-IsTight_example :
    IsTight (remove_at 0 one_packed) × IsTight (overwrite_at 0 small_row one_packed)
remove_at-IsTight_example =
    remove_at-IsTight one_packed (small_row ∷ []) 0 small_row small_bytes
      (record { mode = refl; stored = one-Stored; accounted = refl }) (omega arith) small_encoded
      small-IsStorable

sorted_cmp : (i j : ℕ) → i ≤ j → ltb_ℤ (sub_ℕ j 2) (sub_ℕ i 2) ≡ false
sorted_cmp i j le = ground arith

bounds-EqualRange_example :
    EqualRange (λ i. sub_ℕ i 2) 5 (lower_bound (λ i. sub_ℕ i 2) 5) (upper_bound (λ i. sub_ℕ i 2) 5)
bounds-EqualRange_example = bounds-EqualRange (λ i. sub_ℕ i 2) 5 (λ i j le lt. sorted_cmp i j le)

one_small : length ((5 ∷ []) ++ (serialize_packed one_packed ++ [])) < 2 ^ 64
unfolding serialize_packed lens_bytes live_bytes write_bytes write_u64 put_raw
one_small = omega arith

restore_packed-serialize_packed_example :
    (s' : WindowRowStore) × (restore_packed
        (length (small_row ∷ []))
        (at (5 ∷ []) (serialize_packed one_packed ++ []))
        new_store
      ≡ ok (true, s') (at ((5 ∷ []) ++ serialize_packed one_packed) []))
    × Represents s' (small_row ∷ [])
restore_packed-serialize_packed_example =
    restore_packed-serialize_packed one_packed new_store (small_row ∷ []) (5 ∷ []) []
      (record { unboxed = refl; stored = one-Stored; accounted = refl }) one_small
