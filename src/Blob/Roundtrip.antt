-- ===== src/Blob/Roundtrip.antt =====
-- What was written is read back, and a short blob throws.
use mathlib.Core.List.{append_assoc}
use duck_dbsp.Prelude.{
  ℕ, zero, suc, ◌+◌, ◌/◌, ◌%◌, ◌^◌, ◌≤◌, ◌<◌, ◌≡◌, refl, ap, ap₂, sym, ◌∙◌, false, ◌++◌, ltb, arith,
  length, drop-append, length-append,
}
use duck_dbsp.Packed.{Bytes, put_raw}
use duck_dbsp.Packed.Roundtrip.{get_raw-put_raw, get_bytes-append}
use duck_dbsp.Blob.{BlobReader, ok, write_u64, write_bytes, u64, byte_string_of, byte_string}

pub length-put_raw : (k v : ℕ) → length (put_raw k v) ≡ k
unfolding put_raw
length-put_raw zero v = refl
length-put_raw (suc k) v = ap suc (length-put_raw k (v / 256))

-- A reader that stands between two parts of a blob.
abbrev pub at : Bytes → Bytes → BlobReader
at before rest = record { blob = before ++ rest; pos = length before }

fits_inside :
    (size pos n : ℕ) → pos + n ≤ size → size < 2 ^ 64 → ltb size ((pos + n) % 2 ^ 64) ≡ false
fits_inside size pos n h small = ground arith

moved :
    {A : Type 0} (a : A) (before part rest : Bytes) (p : ℕ)
    → p ≡ length (before ++ part)
    → ok a (record { blob = before ++ (part ++ rest); pos = p }) ≡ ok a (at (before ++ part) rest)
moved a before part rest p e =
    ap₂ (λ (b : Bytes) (q : ℕ). ok a (record { blob = b; pos = q }))
      (sym (append_assoc before part rest)) e

pub u64-write_u64 :
    (before rest : Bytes) (v : ℕ)
    → v < 2 ^ 64
    → length (before ++ (write_u64 v ++ rest)) < 2 ^ 64
    → u64 (at before (write_u64 v ++ rest)) ≡ ok v (at (before ++ write_u64 v) rest)
unfolding u64 write_u64
u64-write_u64 before rest v fits small =
    let tail = put_raw 8 v ++ rest in
    let inside =
      fits_inside (length (before ++ tail)) (length before) 8
        (omega (
          arith,
          length-append {0} before tail,
          length-append {0} (put_raw 8 v) rest,
          length-put_raw 8 v,
        ))
        small in
    rw (inside, drop-append before tail, get_raw-put_raw 8 v rest (omega arith))
      (moved v before (put_raw 8 v) rest (length before + 8)
        (omega (arith, length-append {0} before (put_raw 8 v), length-put_raw 8 v)))

string-write_bytes :
    (before s rest : Bytes)
    → length (before ++ (s ++ rest)) < 2 ^ 64
    → byte_string_of (length s) (at before (s ++ rest)) ≡ ok s (at (before ++ s) rest)
unfolding byte_string_of
string-write_bytes before s rest small =
    let tail = s ++ rest in
    let inside =
      fits_inside (length (before ++ tail)) (length before) (length s)
        (omega (arith, length-append {0} before tail, length-append {0} s rest)) small in
    rw (inside, drop-append before tail, get_bytes-append s rest)
      (moved s before s rest ((length before + length s) % 2 ^ 64) (
        omega (
          arith,
          length-append {0} before s,
          length-append {0} before tail,
          length-append {0} s rest,
        )))

-- A byte string that was written is read back from a blob of less than 2 ^ 64 bytes, wherever it stands
-- in it, and the reader stands behind it.
pub byte_string-write_bytes :
    (before s rest : Bytes)
    → length (before ++ (write_bytes s ++ rest)) < 2 ^ 64
    → byte_string (at before (write_bytes s ++ rest)) ≡ ok s (at (before ++ write_bytes s) rest)
unfolding byte_string write_bytes
byte_string-write_bytes before s rest small =
    let size = write_u64 (length s) in
    let split : (size ++ s) ++ rest ≡ size ++ (s ++ rest) = append_assoc size s rest in
    let whole : length (before ++ (size ++ (s ++ rest))) < 2 ^ 64 = rw (← split) small in
    let fits : length s < 2 ^ 64 = omega (
      arith,
      whole,
      length-append {0} before (size ++ (s ++ rest)),
      length-append {0} size (s ++ rest),
      length-append {0} s rest,
    ) in
    let whole' : length ((before ++ size) ++ (s ++ rest)) < 2 ^ 64 =
      rw (append_assoc before size (s ++ rest)) whole in
    rw (split, u64-write_u64 before (s ++ rest) (length s) fits whole)
      (string-write_bytes (before ++ size) s rest whole'
        ∙ ap (λ (b : Bytes). ok s (at b rest)) (append_assoc before size s))
