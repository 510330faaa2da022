-- ===== src/WindowRows/Refines.antt =====
-- A row store is the list of its rows, whatever it keeps them in.
use duck_dbsp.Prelude.{
  ℕ, ◌+◌, ◌<◌, ◌≡◌, refl, ap, ◌∙◌, ◌⊎◌, false, List, [], ◌∷◌, ◌++◌, some, arith, length, get_elem?,
  set, insert_at, erase_at, length-append, inl, inr, Option-cases,
}
use duck_dbsp.Packed.{Bytes, encode_row}
use duck_dbsp.WindowRows.{
  Row, WindowRowStore, undecided, packed, boxed, is_boxed, is_packed, is_undecided, new_store,
  row_at, size, appended, flip_to_boxed, store_encoded, push_back, store_at, maybe_compact,
  remove_at, overwrite_boxed, overwrite_packed, overwrite_at, len_at,
}
use duck_dbsp.WindowRows.Arena.{
  IsStorable, Stored, nil, appended-Holds, Stored-append, Stored-insert_at, Stored-erase_at,
  Stored-set, Stored-length, Stored-decode_all, Stored-row_at,
}
use duck_dbsp.WindowRows.Compaction.{
  IsAccounted, IsTight, maybe_compact-Kept, live-erase_at, live-insert_at, live-set,
}

pub data Represents (s : WindowRowStore) (rows : List Row) : Type 0 where
  nothing_yet :
      s.mode ≡ undecided
      → s.slots ≡ []
      → s.arena ≡ []
      → s.dead ≡ 0
      → s.rows ≡ []
      → rows ≡ []
      → Represents s rows
  in_arena : s.mode ≡ packed → Stored s.arena s.slots rows → IsAccounted s → Represents s rows
  as_boxed : s.mode ≡ boxed → s.rows ≡ rows → Represents s rows

pub new-Represents : Represents new_store []
new-Represents = nothing_yet refl refl refl refl refl refl

pub row_at-Represents :
    {s : WindowRowStore} {rows : List Row} (i : ℕ)
    → Represents s rows
    → (row_at s i ≡ get_elem? rows i) × (size s ≡ length rows)
unfolding row_at size
row_at-Represents i (nothing_yet m slots arena dead rs e) = rw (m, slots, e) (refl, refl)
row_at-Represents i (in_arena m stored a) = rw m (Stored-row_at i stored, Stored-length stored)
row_at-Represents i (as_boxed m e) = rw (m, e) (refl, refl)

-- A store that is not boxed.
pub record InArena (s : WindowRowStore) (rows : List Row) : Type 0 where
  pub unboxed : is_boxed s.mode ≡ false
  pub stored : Stored s.arena s.slots rows
  pub accounted : IsAccounted s

abbrev pub IsBoxed : WindowRowStore → List Row → Type 0
IsBoxed s rows = (s.mode ≡ boxed) × (s.rows ≡ rows)

pub forms :
    {s : WindowRowStore} {rows : List Row} → Represents s rows → InArena s rows ⊎ IsBoxed s rows
forms (nothing_yet m slots arena dead rs e) = inl record {
  unboxed = ap is_boxed m;
  stored = rw (slots, e) nil;
  accounted = rw (slots, arena, dead) (omega arith);
}
forms (in_arena m stored a) = inl record { unboxed = ap is_boxed m; stored = stored; accounted = a }
forms (as_boxed m e) = inr (m, e)

-- A row that goes into a store that is not boxed, at a position.
encoded-Represents :
    (s : WindowRowStore) (rows : List Row) (pos : ℕ) (r : Row) (b : Bytes)
    → encode_row r ≡ some b
    → IsStorable r
    → InArena s rows
    → Represents (store_encoded (some b) pos s).1 (insert_at rows pos r)
unfolding store_encoded
encoded-Represents s rows pos r b e storable valid =
    let small = storable.short b e in
    in_arena refl
      (Stored-insert_at pos (appended-Holds s.arena b r e storable) (Stored-append b valid.stored))
      (omega (
        arith,
        live-insert_at s.slots pos (appended s.arena b),
        length-append {0} s.arena b,
        valid.accounted,
      ))

flipped_mode : (s : WindowRowStore) → (flip_to_boxed s).mode ≡ boxed
unfolding flip_to_boxed
flipped_mode s = refl

-- The rows of a store that has been flipped.
flipped_rows :
    (s : WindowRowStore) (rows : List Row) → InArena s rows → (flip_to_boxed s).rows ≡ rows
unfolding flip_to_boxed
flipped_rows s rows valid = Stored-decode_all valid.stored

pub store_at-Represents :
    (s : WindowRowStore) (rows : List Row) (pos : ℕ) (r : Row)
    → IsStorable r
    → InArena s rows ⊎ IsBoxed s rows
    → Represents (store_at pos r s) (insert_at rows pos r)
unfolding store_at
store_at-Represents s rows pos r storable (inr (m, e)) =
    rw (ap is_boxed m) (as_boxed m (ap (λ (rs : List Row). insert_at rs pos r) e))
store_at-Represents s rows pos r storable (inl valid) = elim (Option-cases (encode_row r)) [
  | inl e ↦
      rw (valid.unboxed, e)
        (as_boxed (flipped_mode s)
          (ap (λ (rs : List Row). insert_at rs pos r) (flipped_rows s rows valid)))
  | inr (b, e) ↦ rw (valid.unboxed, e) (encoded-Represents s rows pos r b e storable valid)
]

insert_at-length : (rows : List Row) (r : Row) → insert_at rows (length rows) r ≡ rows ++ (r ∷ [])
insert_at-length [] r = refl
insert_at-length (x ∷ rows) r = ap (λ (rs : List Row). x ∷ rs) (insert_at-length rows r)

pub push_back-Represents :
    (s : WindowRowStore) (rows : List Row) (r : Row)
    → IsStorable r
    → InArena s rows ⊎ IsBoxed s rows
    → Represents (push_back r s) (rows ++ (r ∷ []))
unfolding push_back
push_back-Represents s rows r storable (inr (m, e)) =
    rw (ap is_boxed m) (as_boxed m (ap (λ (rs : List Row). rs ++ (r ∷ [])) e))
push_back-Represents s rows r storable (inl valid) = elim (Option-cases (encode_row r)) [
  | inl e ↦
      rw (valid.unboxed, e)
        (as_boxed (flipped_mode s)
          (ap (λ (rs : List Row). rs ++ (r ∷ [])) (flipped_rows s rows valid)))
  | inr (b, e) ↦
      rw (valid.unboxed, e, ← insert_at-length rows r, ← Stored-length valid.stored)
        (encoded-Represents s rows (length s.slots) r b e storable valid)
]

-- A packed store after a change of its slots.
compacted-Represents :
    (s : WindowRowStore) (rows : List Row)
    → s.mode ≡ packed
    → Stored s.arena s.slots rows
    → IsAccounted s
    → Represents (maybe_compact s) rows × IsTight (maybe_compact s)
compacted-Represents s rows m stored a =
    let kept = maybe_compact-Kept s rows stored a in
    (in_arena (kept.same_mode ∙ m) kept.stored kept.accounted, kept.tight)

overwrite_boxed-Represents :
    (s : WindowRowStore) (rows : List Row) (pos : ℕ) (r : Row)
    → IsBoxed s rows
    → Represents (overwrite_boxed pos r s) (set rows pos r)
unfolding overwrite_boxed
overwrite_boxed-Represents s rows pos r (m, e) =
    rw (ap is_undecided m) (as_boxed m (ap (λ (rs : List Row). set rs pos r) e))

overwrite_packed-Represents :
    (s : WindowRowStore) (rows : List Row) (pos : ℕ) (r : Row)
    → s.mode ≡ packed
    → InArena s rows
    → IsStorable r
    → pos < length rows
    → Represents (overwrite_packed (encode_row r) pos r s) (set rows pos r)
unfolding overwrite_packed
overwrite_packed-Represents s rows pos r m valid storable inside =
    elim (Option-cases (encode_row r)) [
      | inl e ↦ rw e (
          overwrite_boxed-Represents (flip_to_boxed s) rows pos r
            (flipped_mode s, flipped_rows s rows valid))
      | inr (b, e) ↦
          let small = storable.short b e in
          rw e
            (compacted-Represents
              (record s {
                dead = s.dead + len_at s.slots pos;
                slots = set s.slots pos (appended s.arena b);
                arena = s.arena ++ b;
              })
              (set rows pos r) m
              (Stored-set pos (appended-Holds s.arena b r e storable)
                (Stored-append b valid.stored))
              (omega (
                arith,
                live-set s.slots pos (appended s.arena b)
                    (omega (arith, Stored-length valid.stored)),
                length-append {0} s.arena b,
                valid.accounted,
              ))).0
    ]

pub remove_at-Represents :
    {s : WindowRowStore} {rows : List Row} (pos : ℕ)
    → pos < length rows
    → Represents s rows
    → Represents (remove_at pos s) (erase_at rows pos)
unfolding remove_at
remove_at-Represents pos inside (nothing_yet m slots arena dead rs e) =
    absurd (omega (arith, ap length e))
remove_at-Represents {s} {rows} pos inside (in_arena m stored a) =
    rw (ap is_packed m)
      (compacted-Represents
        (record s { dead = s.dead + len_at s.slots pos; slots = erase_at s.slots pos })
        (erase_at rows pos) m (Stored-erase_at pos stored)
        (omega (arith, live-erase_at s.slots pos, a))).0
remove_at-Represents pos inside (as_boxed m e) =
    rw (ap is_packed m) (as_boxed m (ap (λ (rs : List Row). erase_at rs pos) e))

pub overwrite_at-Represents :
    {s : WindowRowStore} {rows : List Row} (pos : ℕ) (r : Row)
    → IsStorable r
    → pos < length rows
    → Represents s rows
    → Represents (overwrite_at pos r s) (set rows pos r)
unfolding overwrite_at
overwrite_at-Represents pos r storable inside (nothing_yet m slots arena dead rs e) =
    absurd (omega (arith, ap length e))
overwrite_at-Represents {s} {rows} pos r storable inside (in_arena m stored a) =
    rw (ap is_packed m) (
      overwrite_packed-Represents s rows pos r m
        record { unboxed = ap is_boxed m; stored = stored; accounted = a } storable inside)
overwrite_at-Represents {s} {rows} pos r storable inside (as_boxed m e) =
    rw (ap is_packed m) (overwrite_boxed-Represents s rows pos r (m, e))
