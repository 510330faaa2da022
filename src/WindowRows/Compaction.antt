-- ===== src/WindowRows/Compaction.antt =====
-- Compaction keeps the rows, and bounds the arena by the live bytes.
use mathlib.Core.List.{append_assoc, append-nil}
use duck_dbsp.Prelude.{
  ℕ, zero, suc, ◌+◌, ◌*◌, ◌≤◌, ◌<◌, ◌≡◌, refl, sym, ◌∙◌, true, List, [], ◌∷◌, ◌++◌, arith, length,
  set, insert_at, erase_at, length-append, ltb, ◌||◌, inl, inr, ◌⊎◌, Bool-cases,
}
use duck_dbsp.Packed.{Bytes}
use duck_dbsp.WindowRows.{
  Row, Slot, WindowRowStore, Mode, slice, compact_loop, compact, maybe_compact, len_at,
}
use duck_dbsp.WindowRows.Arena.{Holds, Stored, nil, cons, Holds-append, Holds-slice}

-- The bytes that the slots stand for.
abbrev pub live : List Slot → ℕ
live [] = 0
live (slot ∷ slots) = slot.len + live slots

-- A row's bytes, copied to the end of another arena.
copied-Holds :
    {arena : Bytes} {slot : Slot} {row : Row} (next : Bytes)
    → Holds arena slot row
    → Holds (next ++ slice arena slot) (record slot { off = length next }) row
copied-Holds {slot = slot} next h = record {
  before = next;
  bytes = h.bytes;
  after = [];
  whole = rw (Holds-slice h, append-nil h.bytes) refl;
  at = refl;
  long = h.long;
  encoded = h.encoded;
  storable = h.storable;
}

pub length-slice :
    {arena : Bytes} {slot : Slot} {row : Row}
    → Holds arena slot row
    → length (slice arena slot) ≡ slot.len
length-slice h = rw (Holds-slice h) (sym h.long)

-- What the loop adds to the new arena, and the slots that it makes there.
pub record Compacted (next : Bytes) (slots : List Slot) (rows : List Row) (out : Bytes × List Slot)
    : Type 0 where
  pub more : Bytes
  pub grown : out.0 ≡ next ++ more
  pub stored : Stored out.0 out.1 rows
  pub long : length out.0 ≡ length next + live slots
  pub same_live : live out.1 ≡ live slots

pub compact_loop-Compacted :
    {arena : Bytes} {slots : List Slot} {rows : List Row} (next : Bytes)
    → Stored arena slots rows
    → Compacted next slots rows (compact_loop arena next slots)
unfolding compact_loop
compact_loop-Compacted next nil = record {
  more = [];
  grown = sym (append-nil next);
  stored = nil;
  long = omega arith;
  same_live = refl;
}
compact_loop-Compacted {arena} next (cons {slot} {row} {slots} {rows} h hs) =
    let rest = compact_loop-Compacted {arena = arena} (next ++ slice arena slot) hs in
    record {
      more = slice arena slot ++ rest.more;
      grown = rest.grown ∙ append_assoc next (slice arena slot) rest.more;
      stored = cons (rw rest.grown (Holds-append rest.more (copied-Holds next h))) rest.stored;
      long = omega (arith, rest.long, length-append {0} next (slice arena slot), length-slice h);
      same_live = omega (arith, rest.same_live);
    }

-- The arena has the live bytes and the dead ones, and no others.
abbrev pub IsAccounted : WindowRowStore → Type 0
IsAccounted s = s.dead + live s.slots ≡ length s.arena

-- A small arena, or one that is at most twice the live bytes.
abbrev pub IsTight : WindowRowStore → Type 0
IsTight s = (length s.arena < 4096) ⊎ (length s.arena ≤ live s.slots * 2)

pub record Kept (s : WindowRowStore) (mode : Mode) (rows : List Row) : Type 0 where
  pub same_mode : s.mode ≡ mode
  pub stored : Stored s.arena s.slots rows
  pub accounted : IsAccounted s
  pub tight : IsTight s

tight_enough :
    (dead alive all : ℕ)
    → dead + alive ≡ all
    → (ltb all 4096 || ltb (dead * 2) all) ≡ true
    → (all < 4096) ⊎ (all ≤ alive * 2)
tight_enough dead alive all e h = elim (Bool-cases (ltb all 4096)) [
  | inl small ↦ inl (ground arith)
  | inr large ↦ inr (ground arith)
]

pub maybe_compact-Kept :
    (s : WindowRowStore) (rows : List Row)
    → Stored s.arena s.slots rows
    → IsAccounted s
    → Kept (maybe_compact s) s.mode rows
unfolding maybe_compact compact
maybe_compact-Kept s rows stored accounted =
    elim (Bool-cases (ltb (length s.arena) 4096 || ltb (s.dead * 2) (length s.arena))) [
      | inl e ↦ rw e record {
        same_mode = refl;
        stored = stored;
        accounted = accounted;
        tight = tight_enough s.dead (live s.slots) (length s.arena) accounted e;
      }
      | inr e ↦
          let done = compact_loop-Compacted [] stored in
          rw e record {
            same_mode = refl;
            stored = done.stored;
            accounted = omega (arith, done.long, done.same_live);
            tight = inr (omega (arith, done.long, done.same_live));
          }
    ]

pub live-erase_at :
    (slots : List Slot) (i : ℕ) → live (erase_at slots i) + len_at slots i ≡ live slots
live-erase_at [] i = refl
live-erase_at (slot ∷ slots) zero = omega arith
live-erase_at (slot ∷ slots) (suc i) = omega (arith, live-erase_at slots i)

pub live-insert_at :
    (slots : List Slot) (i : ℕ) (slot : Slot)
    → live (insert_at slots i slot) ≡ live slots + slot.len
live-insert_at slots zero slot = omega arith
live-insert_at [] (suc i) slot = omega arith
live-insert_at (s ∷ slots) (suc i) slot = omega (arith, live-insert_at slots i slot)

pub live-set :
    (slots : List Slot) (i : ℕ) (slot : Slot)
    → i < length slots
    → live (set slots i slot) + len_at slots i ≡ live slots + slot.len
live-set [] i slot h = absurd (omega arith)
live-set (s ∷ slots) zero slot h = omega arith
live-set (s ∷ slots) (suc i) slot h = omega (arith, live-set slots i slot (omega arith))
