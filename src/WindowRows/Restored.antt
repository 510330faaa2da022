-- ===== src/WindowRows/Restored.antt =====
-- A restored store has the rows of the one that was serialized.
use mathlib.Core.List.{append_assoc}
use duck_dbsp.Prelude.{
  ℕ, suc, ◌+◌, ◌*◌, ◌%◌, ◌^◌, ◌≤◌, ◌<◌, ◌≡◌, refl, ap, ◌∙◌, Bool, true, false, List, [], ◌∷◌, ◌++◌,
  if◌then◌else◌, ◌==◌, ==_iff, arith, length, length-append,
}
use duck_dbsp.Packed.{Bytes, put_raw}
use duck_dbsp.Packed.Roundtrip.{get_raw-put_raw}
use duck_dbsp.Blob.{write_u64, BlobReader, ReadResult, ok, ◌>>=◌, write_bytes, byte_string}
use duck_dbsp.Blob.Roundtrip.{at, byte_string-write_bytes, length-put_raw}
use duck_dbsp.WindowRows.{Row, Slot, WindowRowStore, undecided, packed, slice}
use duck_dbsp.WindowRows.Arena.{Holds, Stored, nil, cons, Holds-slice, Stored-length}
use duck_dbsp.WindowRows.Compaction.{live, length-slice}
use duck_dbsp.WindowRows.Refines.{Represents, nothing_yet, in_arena, InArena}
use duck_dbsp.WindowRows.Checkpoint.{
  lens_bytes, live_bytes, serialize_packed, read_slots, restore_parts, restore_packed,
}

-- Slots one behind the other.
abbrev placed : ℕ → List Slot → List Slot
placed off [] = []
placed off (slot ∷ slots) = record slot { off = off } ∷ placed (off + slot.len) slots

live-placed : (off : ℕ) (slots : List Slot) → live (placed off slots) ≡ live slots
live-placed off [] = refl
live-placed off (slot ∷ slots) = ap (λ (n : ℕ). slot.len + n) (live-placed (off + slot.len) slots)

length-lens_bytes : (slots : List Slot) → length (lens_bytes slots) ≡ length slots * 4
unfolding lens_bytes
length-lens_bytes [] = refl
length-lens_bytes (slot ∷ slots) = omega (
  arith,
  length-lens_bytes slots,
  length-append {0} (put_raw 4 slot.len) (lens_bytes slots),
  length-put_raw 4 slot.len,
)

Holds-len : {arena : Bytes} {slot : Slot} {row : Row} → Holds arena slot row → slot.len < 2 ^ 32
Holds-len h = omega (arith, h.long, h.storable.short h.bytes h.encoded)

module _ {arena : Bytes} where
  length-live_bytes :
      {slots : List Slot} {rows : List Row}
      → Stored arena slots rows
      → length (live_bytes arena slots) ≡ live slots
  unfolding live_bytes
  length-live_bytes nil = refl
  length-live_bytes (cons {slot} {row} {slots} h hs) = omega (
    arith,
    length-append {0} (slice arena slot) (live_bytes arena slots),
    length-slice h,
    length-live_bytes hs,
  )

  read_slots-lens_bytes :
      {slots : List Slot} {rows : List Row} (off : ℕ)
      → Stored arena slots rows
      → off + live slots < 2 ^ 64
      → read_slots (length slots) off (lens_bytes slots) ≡ (placed off slots, off + live slots)
  unfolding read_slots lens_bytes
  read_slots-lens_bytes off nil small = ap (λ (n : ℕ). ([], n)) (omega arith)
  read_slots-lens_bytes off (cons {slot} {row} {slots} h hs) small =
      let fits = Holds-len h in
      let next : (off + slot.len) % 2 ^ 64 ≡ off + slot.len = omega arith in
      rw
        (
          read_slots,
          get_raw-put_raw 4 slot.len (lens_bytes slots) (omega (arith, fits)),
          next,
          read_slots-lens_bytes (off + slot.len) hs (omega arith),
        )
        (ap (λ (n : ℕ). (record { off = off; len = slot.len } ∷ placed (off + slot.len) slots, n))
          (omega arith))

  placed-Stored :
      {slots : List Slot} {rows : List Row} (before : Bytes)
      → Stored arena slots rows
      → Stored (before ++ live_bytes arena slots) (placed (length before) slots) rows
  unfolding live_bytes
  placed-Stored before nil = nil
  placed-Stored before (cons {slot} {row} {slots} h hs) =
      let part = slice arena slot in
      let long : length (before ++ part) ≡ length before + slot.len =
        omega (arith, length-append {0} before part, length-slice h) in
      cons
        record {
          before = before;
          bytes = h.bytes;
          after = live_bytes arena slots;
          whole = rw (Holds-slice h) refl;
          at = refl;
          long = h.long;
          encoded = h.encoded;
          storable = h.storable;
        }
        (rw (← long, ← append_assoc before part (live_bytes arena slots))
          (placed-Stored (before ++ part) hs))

-- Two byte strings, one behind the other.
read_both :
    {A : Type 0} (f : Bytes → Bytes → BlobReader → ReadResult A) (before a b rest : Bytes)
    → length (before ++ ((write_bytes a ++ write_bytes b) ++ rest)) < 2 ^ 64
    → (byte_string (at before ((write_bytes a ++ write_bytes b) ++ rest)) >>= λ x r.
        byte_string r >>= f x)
      ≡ f a b (at (before ++ (write_bytes a ++ write_bytes b)) rest)
read_both f before a b rest small =
    let split = append_assoc (write_bytes a) (write_bytes b) rest in
    let whole : length (before ++ (write_bytes a ++ (write_bytes b ++ rest))) < 2 ^ 64 =
      rw (← split) small in
    let next : length ((before ++ write_bytes a) ++ (write_bytes b ++ rest)) < 2 ^ 64 =
      rw (append_assoc before (write_bytes a) (write_bytes b ++ rest)) whole in
    rw
      (
        split,
        byte_string-write_bytes before a (write_bytes b ++ rest) whole,
        byte_string-write_bytes (before ++ write_bytes a) b rest next,
      )
      (ap (λ (p : Bytes). f a b (at p rest)) (append_assoc before (write_bytes a) (write_bytes b)))

length-write_bytes : (p : Bytes) → length (write_bytes p) ≡ 8 + length p
unfolding write_bytes write_u64
length-write_bytes p =
    omega (arith, length-append {0} (put_raw 8 (length p)) p, length-put_raw 8 (length p))

-- Two byte strings are no longer than the blob they stand in.
both_inside :
    (before a b rest : Bytes)
    → length a + length b ≤ length (before ++ ((write_bytes a ++ write_bytes b) ++ rest))
both_inside before a b rest =
    let both = write_bytes a ++ write_bytes b in
    omega (
      arith,
      length-append {0} before (both ++ rest),
      length-append {0} both rest,
      length-append {0} (write_bytes a) (write_bytes b),
      length-write_bytes a,
      length-write_bytes b,
    )

abbrev restored : ℕ → Bytes → List Slot → WindowRowStore
restored n bytes slots = record {
  mode = if n == 0 then undecided else packed;
  arena = bytes;
  slots = slots;
  dead = 0;
  rows = [];
}

restored-Represents :
    {arena : Bytes} {slots : List Slot} {rows : List Row}
    → Stored arena slots rows
    → Represents (restored (length rows) (live_bytes arena slots) (placed 0 slots)) rows
unfolding live_bytes
restored-Represents nil = nothing_yet refl refl refl refl refl refl
restored-Represents (cons {slot} {row} {slots} {rows} h hs) =
    let some_rows : (suc (length rows) == 0) ≡ false = ground arith in
    in_arena (rw some_rows refl) (placed-Stored [] (cons h hs))
      (omega (arith, live-placed 0 (slot ∷ slots), length-live_bytes (cons h hs)))

restore_parts-written :
    {arena : Bytes} {slots : List Slot} {rows : List Row} (any : WindowRowStore)
    → Stored arena slots rows
    → live slots < 2 ^ 64
    → length (lens_bytes slots) < 2 ^ 64
    → restore_parts (length rows) (lens_bytes slots) (live_bytes arena slots) any
      ≡ (true, restored (length rows) (live_bytes arena slots) (placed 0 slots))
unfolding restore_parts
restore_parts-written {arena} {slots} {rows} any stored small few =
    let count = Stored-length stored in
    let size = length-lens_bytes slots in
    let lens : (length (lens_bytes slots) == length rows * 4 % 2 ^ 64) ≡ true =
      (==_iff (length (lens_bytes slots)) (length rows * 4 % 2 ^ 64)).1 (omega arith) in
    let full : (0 + live slots == length (live_bytes arena slots)) ≡ true =
      (==_iff (0 + live slots) (length (live_bytes arena slots))).1
        (omega (arith, length-live_bytes stored)) in
    rw (lens, ← count, read_slots-lens_bytes 0 stored (omega (arith, small)), full) refl

-- What `serialize_packed` has written of a store that is not boxed is restored, into any store, as a store
-- of the same rows, and the reader stands behind it. The rows are of the lengths the packed form takes, and
-- the blob has less than 2 ^ 64 bytes.
pub restore_packed-serialize_packed :
    (s any : WindowRowStore) (rows : List Row) (before rest : Bytes)
    → InArena s rows
    → length (before ++ (serialize_packed s ++ rest)) < 2 ^ 64
    → (s' : WindowRowStore) × (restore_packed
          (length rows)
          (at before (serialize_packed s ++ rest))
          any
        ≡ ok (true, s') (at (before ++ serialize_packed s) rest))
      × Represents s' rows
unfolding restore_packed serialize_packed
restore_packed-serialize_packed s any rows before rest valid small =
    let lens = lens_bytes s.slots in
    let bytes = live_bytes s.arena s.slots in
    let inside = both_inside before lens bytes rest in
    (
      restored (length rows) (live_bytes s.arena s.slots) (placed 0 s.slots),
      read_both (λ lens bytes r. ok (restore_parts (length rows) lens bytes any) r) before
            (lens_bytes s.slots) (live_bytes s.arena s.slots) rest small
          ∙ ap (λ (p : Bool × WindowRowStore). ok p (at (before ++ serialize_packed s) rest))
              (restore_parts-written any valid.stored
                (omega (arith, inside, length-live_bytes valid.stored)) (omega (arith, inside))),
      restored-Represents valid.stored,
    )
