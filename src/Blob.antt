-- ===== src/Blob.antt =====
-- include/dbsp_checkpoint.hpp, BlobWriter and BlobReader: the scalars and byte strings of a node's
-- state. `row`, which goes through the codec of the spill store, is left out.
pub mod Roundtrip
pub mod Safety
use duck_dbsp.Prelude.{
  ℕ, ◌+◌, ◌%◌, ◌^◌, Bool, true, false, List, [], ◌∷◌, ◌++◌, Option, none, some, if◌then◌else◌, ltb,
  length, drop, ◌==◌,
}
use duck_dbsp.Packed.{Bytes, put_raw, get_raw, get_bytes}

-- What the writer appends.
unfoldable pub write_u64 : ℕ → Bytes
write_u64 v = put_raw 8 v

unfoldable pub write_bytes : Bytes → Bytes
unfolding write_u64
write_bytes p = write_u64 (length p) ++ p

pub record BlobReader : Type 0 where
  pub blob : Bytes
  pub pos : ℕ

-- A read gives a value, or throws because the blob is truncated, or runs past the blob's end, which is
-- undefined behaviour.
pub data ReadResult {ℓ} (A : Type ℓ) : Type ℓ where
  ok : A → BlobReader → ReadResult A
  truncated overrun : ReadResult A

infixl 5 ◌>>=◌
abbrev pub ◌>>=◌ {ℓ κ} :
    {A : Type ℓ} {B : Type κ} → ReadResult A → (A → BlobReader → ReadResult B) → ReadResult B
ok a r >>= f = f a r
truncated >>= f = truncated
overrun >>= f = overrun

-- `memcpy` of a scalar, once the bound has been checked.
unfoldable pub fixed_from : Option (ℕ × Bytes) → ℕ → BlobReader → ReadResult ℕ
fixed_from none k r = overrun
fixed_from (some (v, rest)) k r = ok v (record r { pos = r.pos + k })

-- `fixed<T>` for a scalar of `k` bytes. `size_t` has 64 bits.
unfoldable pub fixed : ℕ → BlobReader → ReadResult ℕ
unfolding fixed_from
fixed k r =
    if ltb (length r.blob) ((r.pos + k) % 2 ^ 64)
    then truncated
    else fixed_from (get_raw k (drop r.pos r.blob)) k r

unfoldable pub u64 : BlobReader → ReadResult ℕ
unfolding fixed
u64 r = fixed 8 r

unfoldable pub string_from : Option (Bytes × Bytes) → ℕ → BlobReader → ReadResult Bytes
string_from none n r = overrun
string_from (some (s, rest)) n r = ok s (record r { pos = (r.pos + n) % 2 ^ 64 })

-- The rest of `byte_string`, after its length.
unfoldable pub byte_string_of : ℕ → BlobReader → ReadResult Bytes
unfolding string_from
byte_string_of n r =
    if ltb (length r.blob) ((r.pos + n) % 2 ^ 64)
    then truncated
    else string_from (get_bytes n (drop r.pos r.blob)) n r

unfoldable pub byte_string : BlobReader → ReadResult Bytes
unfolding u64 byte_string_of
byte_string r = u64 r >>= byte_string_of

unfoldable pub done : BlobReader → Bool
done r = r.pos == length r.blob
