-- ===== src/WindowRows/Arena.antt =====
-- Slots that hold the bytes of rows in an arena.
use mathlib.Core.List.{append_assoc, append-nil}
use duck_dbsp.Prelude.{
  ℕ, zero, suc, ◌^◌, ◌<◌, ◌≡◌, refl, ap, List, [], ◌∷◌, ◌++◌, none, some, arith, length, get_elem?,
  drop, set, insert_at, erase_at, take-append, drop-append, All,
}
use duck_dbsp.Packed.{Bytes, encode_row}
use duck_dbsp.Packed.Roundtrip.{IsWellTyped, row-decode}
use duck_dbsp.WindowRows.{Row, Slot, decode_slot, decode_all, appended, slice}

-- A row that the codec reads back: well typed, with a column count and a size of 32 bits.
pub record IsStorable (row : Row) : Type 0 where
  pub well_typed : All IsWellTyped row
  pub few_columns : length row < 2 ^ 32
  pub short : (b : Bytes) → encode_row row ≡ some b → length b < 2 ^ 32

-- The arena has the row's bytes at the slot.
pub record Holds (arena : Bytes) (slot : Slot) (row : Row) : Type 0 where
  pub before : Bytes
  pub bytes : Bytes
  pub after : Bytes
  pub whole : arena ≡ before ++ (bytes ++ after)
  pub at : slot.off ≡ length before
  pub long : slot.len ≡ length bytes
  pub encoded : encode_row row ≡ some bytes
  pub storable : IsStorable row

pub data Stored (arena : Bytes) : List Slot → List Row → Type 0 where
  nil : Stored arena [] []
  cons :
      {slot : Slot} {row : Row} {slots : List Slot} {rows : List Row}
      → Holds arena slot row
      → Stored arena slots rows
      → Stored arena (slot ∷ slots) (row ∷ rows)

Holds-drop :
    {arena : Bytes} {slot : Slot} {row : Row} (h : Holds arena slot row)
    → drop slot.off arena ≡ h.bytes ++ h.after
Holds-drop h = rw (h.whole, h.at) (drop-append h.before (h.bytes ++ h.after))

pub Holds-slice :
    {arena : Bytes} {slot : Slot} {row : Row} (h : Holds arena slot row)
    → slice arena slot ≡ h.bytes
Holds-slice h = rw (Holds-drop h, h.long) (take-append h.bytes h.after)

pub Holds-decode :
    {arena : Bytes} {slot : Slot} {row : Row}
    → Holds arena slot row
    → decode_slot arena slot ≡ some row
unfolding decode_slot
Holds-decode {row = row} h =
    rw (Holds-drop h)
      (row-decode row h.bytes h.after h.encoded h.storable.well_typed h.storable.few_columns)

pub Holds-append :
    {arena : Bytes} {slot : Slot} {row : Row} (more : Bytes)
    → Holds arena slot row
    → Holds (arena ++ more) slot row
Holds-append more h = record {
  before = h.before;
  bytes = h.bytes;
  after = h.after ++ more;
  whole =
      rw
        (
          h.whole,
          append_assoc h.before (h.bytes ++ h.after) more,
          append_assoc h.bytes h.after more,
        )
        refl;
  at = h.at;
  long = h.long;
  encoded = h.encoded;
  storable = h.storable;
}

-- Bytes that go to the end of the arena.
pub appended-Holds :
    (arena b : Bytes) (row : Row)
    → encode_row row ≡ some b
    → IsStorable row
    → Holds (arena ++ b) (appended arena b) row
appended-Holds arena b row e storable =
    let small = storable.short b e in
    record {
      before = arena;
      bytes = b;
      after = [];
      whole = rw (append-nil b) refl;
      at = refl;
      long = omega arith;
      encoded = e;
      storable = storable;
    }

pub Stored-append :
    {arena : Bytes} {slots : List Slot} {rows : List Row} (more : Bytes)
    → Stored arena slots rows
    → Stored (arena ++ more) slots rows
Stored-append more nil = nil
Stored-append more (cons h hs) = cons (Holds-append more h) (Stored-append more hs)

pub Stored-insert_at :
    {arena : Bytes} {slots : List Slot} {rows : List Row} {slot : Slot} {row : Row} (i : ℕ)
    → Holds arena slot row
    → Stored arena slots rows
    → Stored arena (insert_at slots i slot) (insert_at rows i row)
Stored-insert_at zero h hs = cons h hs
Stored-insert_at (suc i) h nil = cons h nil
Stored-insert_at (suc i) h (cons g gs) = cons g (Stored-insert_at i h gs)

pub Stored-erase_at :
    {arena : Bytes} {slots : List Slot} {rows : List Row} (i : ℕ)
    → Stored arena slots rows
    → Stored arena (erase_at slots i) (erase_at rows i)
Stored-erase_at i nil = nil
Stored-erase_at zero (cons h hs) = hs
Stored-erase_at (suc i) (cons h hs) = cons h (Stored-erase_at i hs)

pub Stored-set :
    {arena : Bytes} {slots : List Slot} {rows : List Row} {slot : Slot} {row : Row} (i : ℕ)
    → Holds arena slot row
    → Stored arena slots rows
    → Stored arena (set slots i slot) (set rows i row)
Stored-set i h nil = nil
Stored-set zero h (cons g gs) = cons h gs
Stored-set (suc i) h (cons g gs) = cons g (Stored-set i h gs)

pub Stored-length :
    {arena : Bytes} {slots : List Slot} {rows : List Row}
    → Stored arena slots rows
    → length slots ≡ length rows
Stored-length nil = refl
Stored-length (cons h hs) = ap suc (Stored-length hs)

pub Stored-decode_all :
    {arena : Bytes} {slots : List Slot} {rows : List Row}
    → Stored arena slots rows
    → decode_all arena slots ≡ rows
unfolding decode_all
Stored-decode_all nil = refl
Stored-decode_all (cons h hs) = rw (Holds-decode h, Stored-decode_all hs) refl

pub Stored-row_at :
    {arena : Bytes} {slots : List Slot} {rows : List Row} (i : ℕ)
    → Stored arena slots rows
    → elim (get_elem? slots i) [ none ↦ none | some slot ↦ decode_slot arena slot ]
      ≡ get_elem? rows i
Stored-row_at i nil = refl
Stored-row_at zero (cons h hs) = Holds-decode h
Stored-row_at (suc i) (cons h hs) = Stored-row_at i hs
