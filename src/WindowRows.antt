-- ===== src/WindowRows.antt =====
-- include/dbsp_window_rows.hpp, WindowRowStore: the rows of a window partition, packed into one arena
-- with a directory of slots, or boxed. A position outside the store is undefined behaviour; what the
-- list functions do there has no meaning.
pub mod Arena
pub mod Refines
pub mod Run
pub mod Checkpoint
pub mod Restored
pub mod Compaction
pub mod Search
use duck_dbsp.Prelude.{
  ℕ, ◌+◌, ◌*◌, ◌%◌, ◌^◌, Bool, true, false, List, [], ◌∷◌, ◌++◌, Option, none, some, if◌then◌else◌,
  ◌||◌, ltb, length, get_elem?, take, drop, set, insert_at, erase_at,
}
use duck_dbsp.Packed.{Value, Bytes, encode_row, decode_row}

pub data Mode : Type 0 where
  undecided packed boxed : Mode

abbrev pub is_boxed : Mode → Bool
is_boxed undecided = false
is_boxed packed = false
is_boxed boxed = true

abbrev pub is_packed : Mode → Bool
is_packed undecided = false
is_packed packed = true
is_packed boxed = false

abbrev pub is_undecided : Mode → Bool
is_undecided undecided = true
is_undecided packed = false
is_undecided boxed = false

abbrev pub Row : Type 0
Row = List Value

pub record Slot : Type 0 where
  pub off : ℕ
  pub len : ℕ

pub record WindowRowStore : Type 0 where
  pub mode : Mode
  pub arena : Bytes
  pub slots : List Slot
  pub dead : ℕ
  pub rows : List Row

-- A new store, and what `clear` leaves.
abbrev pub new_store : WindowRowStore
new_store = record { mode = undecided; arena = []; slots = []; dead = 0; rows = [] }

unfoldable pub size : WindowRowStore → ℕ
size s = if is_boxed s.mode then length s.rows else length s.slots

unfoldable pub packed_or_empty : WindowRowStore → Bool
packed_or_empty s = if is_boxed s.mode then elim s.rows [ [] ↦ true | r ∷ rs ↦ false ] else true

-- A read past the arena's end is undefined behaviour, and gives no row.
unfoldable pub decode_slot : Bytes → Slot → Option Row
decode_slot arena slot = decode_row (drop slot.off arena)

unfoldable pub row_at : WindowRowStore → ℕ → Option Row
row_at s i =
    if is_boxed s.mode
    then get_elem? s.rows i
    else elim (get_elem? s.slots i) [ none ↦ none | some slot ↦ decode_slot s.arena slot ]

-- The slot of bytes that go to the end of the arena; the length is cut to 32 bits.
abbrev pub appended : Bytes → Bytes → Slot
appended arena bytes = record { off = length arena; len = length bytes % 2 ^ 32 }

-- A row whose bytes cannot be read becomes the empty row.
unfoldable pub decode_all : Bytes → List Slot → List Row
decode_all arena [] = []
decode_all arena (slot ∷ slots) =
    elim (decode_slot arena slot) [ none ↦ [] | some row ↦ row ] ∷ decode_all arena slots

unfoldable pub flip_to_boxed : WindowRowStore → WindowRowStore
unfolding decode_all
flip_to_boxed s = record {
  mode = boxed;
  arena = [];
  slots = [];
  dead = 0;
  rows = decode_all s.arena s.slots;
}

-- With whether the row has been stored packed.
unfoldable pub store_encoded : Option Bytes → ℕ → WindowRowStore → Bool × WindowRowStore
store_encoded none pos s = (false, flip_to_boxed s)
store_encoded (some bytes) pos s = (
  true,
  record s {
    mode = packed;
    slots = insert_at s.slots pos (appended s.arena bytes);
    arena = s.arena ++ bytes;
  },
)

unfoldable pub try_store_packed : Row → ℕ → WindowRowStore → Bool × WindowRowStore
unfolding store_encoded
try_store_packed r pos s =
    if is_boxed s.mode then (false, s) else store_encoded (encode_row r) pos s

unfoldable pub push_back : Row → WindowRowStore → WindowRowStore
unfolding try_store_packed
push_back r s =
    let (stored, s') = try_store_packed r (length s.slots) s in
    if stored then s' else record s' { rows = s'.rows ++ (r ∷ []) }

unfoldable pub store_at : ℕ → Row → WindowRowStore → WindowRowStore
unfolding try_store_packed
store_at pos r s =
    let (stored, s') = try_store_packed r pos s in
    if stored then s' else record s' { rows = insert_at s'.rows pos r }

abbrev pub slice : Bytes → Slot → Bytes
slice arena slot = take slot.len (drop slot.off arena)

-- The loop of `maybe_compact`, from what has been copied so far: the new arena and the new slots.
unfoldable pub compact_loop : Bytes → Bytes → List Slot → Bytes × List Slot
compact_loop arena next [] = (next, [])
compact_loop arena next (slot ∷ slots) =
    let (next', slots') = compact_loop arena (next ++ slice arena slot) slots in
    (next', record slot { off = length next } ∷ slots')

unfoldable pub compact : WindowRowStore → WindowRowStore
unfolding compact_loop
compact s =
    let (next, slots) = compact_loop s.arena [] s.slots in
    record s { arena = next; slots = slots; dead = 0 }

unfoldable pub maybe_compact : WindowRowStore → WindowRowStore
maybe_compact s =
    if ltb (length s.arena) 4096 || ltb (s.dead * 2) (length s.arena) then s else compact s

-- `slots_[pos].len`
abbrev pub len_at : List Slot → ℕ → ℕ
len_at slots pos = elim (get_elem? slots pos) [ none ↦ 0 | some slot ↦ slot.len ]

unfoldable pub remove_at : ℕ → WindowRowStore → WindowRowStore
remove_at pos s =
    if is_packed s.mode
    then (maybe_compact
        (record s { dead = s.dead + len_at s.slots pos; slots = erase_at s.slots pos }))
    else record s { rows = erase_at s.rows pos }

-- The end of `overwrite_at`, for a store that is not packed.
unfoldable pub overwrite_boxed : ℕ → Row → WindowRowStore → WindowRowStore
overwrite_boxed pos r s =
    if is_undecided s.mode then push_back r s else record s { rows = set s.rows pos r }

unfoldable pub overwrite_packed : Option Bytes → ℕ → Row → WindowRowStore → WindowRowStore
unfolding overwrite_boxed
overwrite_packed none pos r s = overwrite_boxed pos r (flip_to_boxed s)
overwrite_packed (some bytes) pos r s = maybe_compact (record s {
  dead = s.dead + len_at s.slots pos;
  slots = set s.slots pos (appended s.arena bytes);
  arena = s.arena ++ bytes;
})

unfoldable pub overwrite_at : ℕ → Row → WindowRowStore → WindowRowStore
unfolding overwrite_packed overwrite_boxed
overwrite_at pos r s =
    if is_packed s.mode then overwrite_packed (encode_row r) pos r s else overwrite_boxed pos r s
