-- ===== src/Blob/Safety.antt =====
-- The bound checks of the reader.
use duck_dbsp.Prelude.{
  ℕ, zero, suc, ◌+◌, ◌*◌, ◌%◌, ◌^◌, ◌≤◌, ◌<◌, ◌≡◌, ◌⊎◌, refl, ap, [], ◌∷◌, some, ltb, arith, length,
  drop, inl, inr, Bool-cases,
}
use duck_dbsp.Packed.{Bytes, get_raw, get_bytes}
use duck_dbsp.Blob.{BlobReader, ok, truncated, fixed, fixed_from, string_from, byte_string_of}

length-drop : (n : ℕ) (p : Bytes) → n ≤ length p → length (drop n p) + n ≡ length p
length-drop zero p h = omega arith
length-drop (suc n) [] h = absurd (omega (arith, h))
length-drop (suc n) (b ∷ p) h = omega (arith, length-drop n p (omega (arith, h)))

get_bytes_inside :
    (n : ℕ) (p : Bytes)
    → n ≤ length p
    → (s : Bytes) × (rest : Bytes) × (get_bytes n p ≡ some (s, rest)) × (length s ≡ n)
unfolding get_bytes
get_bytes_inside zero p h = ([], p, refl, refl)
get_bytes_inside (suc n) [] h = absurd (omega (arith, h))
get_bytes_inside (suc n) (b ∷ p) h =
    let (s, rest, e, long) = get_bytes_inside n p (omega (arith, h)) in
    (b ∷ s, rest, rw e refl, ap suc long)

get_raw_inside :
    (k : ℕ) (p : Bytes) → k ≤ length p → (v : ℕ) × (rest : Bytes) × (get_raw k p ≡ some (v, rest))
unfolding get_raw
get_raw_inside zero p h = (0, p, refl)
get_raw_inside (suc k) [] h = absurd (omega (arith, h))
get_raw_inside (suc k) (b ∷ p) h =
    let (v, rest, e) = get_raw_inside k p (omega (arith, h)) in (b + 256 * v, rest, rw e refl)

-- A reader inside its blob that is asked for `n` bytes, whose end does not wrap at 2 ^ 64, throws if
-- they are not all there, and otherwise reads `n` bytes and stays inside, be it a byte string or a
-- scalar. So it never reads past the end.
pub byte_string_of-inside :
    (r : BlobReader) (n : ℕ)
    → r.pos ≤ length r.blob
    → r.pos + n < 2 ^ 64
    → ((length r.blob < r.pos + n) × (byte_string_of n r ≡ truncated) × (fixed n r ≡ truncated))
      ⊎ ((r.pos + n ≤ length r.blob)
          × ((s : Bytes) × (byte_string_of n r ≡ ok s (record r { pos = r.pos + n }))
              × (length s ≡ n))
          × ((v : ℕ) × (fixed n r ≡ ok v (record r { pos = r.pos + n }))))
unfolding byte_string_of fixed string_from fixed_from
byte_string_of-inside r n inside small =
    let whole : (r.pos + n) % 2 ^ 64 ≡ r.pos + n = omega arith in
    let size = length-drop r.pos r.blob inside in
    elim (Bool-cases (ltb (length r.blob) (r.pos + n))) [
      | inl e ↦ inl (ground arith, rw (whole, e) refl, rw (whole, e) refl)
      | inr e ↦
          let fits : n ≤ length (drop r.pos r.blob) = ground (arith, size) in
          let (s, rest, read, long) = get_bytes_inside n (drop r.pos r.blob) fits in
          let (v, rest', read') = get_raw_inside n (drop r.pos r.blob) fits in
          inr (
            ground (arith, size),
            (s, rw (whole, e, read) (ap (λ (p : ℕ). ok s (record r { pos = p })) whole), long),
            (v, rw (whole, e, read') refl),
          )
    ]
