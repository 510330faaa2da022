-- ===== src/WindowRows/Run.antt =====
-- A row store under any sequence of its operations, against the list of its rows; and the bound that
-- compaction keeps on the arena.
use duck_dbsp.Prelude.{
  ℕ, ◌+◌, ◌<◌, ◌≤◌, ◌≡◌, List, [], ◌∷◌, ◌++◌, some, arith, length, get_elem?, set, insert_at,
  erase_at, true, length-append,
}
use duck_dbsp.Packed.{Bytes, encode_row}
use duck_dbsp.WindowRows.{
  Row, WindowRowStore, is_packed, new_store, row_at, size, push_back, store_at, remove_at,
  overwrite_at, len_at, appended,
}
use duck_dbsp.WindowRows.Arena.{
  IsStorable, Stored, appended-Holds, Stored-append, Stored-erase_at, Stored-set, Stored-length,
}
use duck_dbsp.WindowRows.Compaction.{
  IsTight, IsAccounted, maybe_compact-Kept, live-erase_at, live-set,
}
use duck_dbsp.WindowRows.Refines.{
  Represents, new-Represents, row_at-Represents, push_back-Represents, store_at-Represents,
  remove_at-Represents, overwrite_at-Represents, forms,
}

-- The operations that the owner of a store calls.
pub data StoreOp : Type 0 where
  push : Row → StoreOp
  insert : ℕ → Row → StoreOp
  erase : ℕ → StoreOp
  overwrite : ℕ → Row → StoreOp
  clear : StoreOp

abbrev pub on_store : StoreOp → WindowRowStore → WindowRowStore
on_store (push r) s = push_back r s
on_store (insert pos r) s = store_at pos r s
on_store (erase pos) s = remove_at pos s
on_store (overwrite pos r) s = overwrite_at pos r s
on_store clear s = new_store

-- The same on the plain list of rows.
abbrev pub on_rows : StoreOp → List Row → List Row
on_rows (push r) rows = rows ++ (r ∷ [])
on_rows (insert pos r) rows = insert_at rows pos r
on_rows (erase pos) rows = erase_at rows pos
on_rows (overwrite pos r) rows = set rows pos r
on_rows clear rows = []

-- The position is inside, and a row of supported types fits the codec's 32-bit sizes.
abbrev pub IsAllowed : StoreOp → List Row → Type 0
IsAllowed (push r) rows = IsStorable r
IsAllowed (insert pos r) rows = IsStorable r × (pos ≤ length rows)
IsAllowed (erase pos) rows = pos < length rows
IsAllowed (overwrite pos r) rows = IsStorable r × (pos < length rows)
IsAllowed clear rows = Unit

abbrev pub run_store : List StoreOp → WindowRowStore → WindowRowStore
run_store [] s = s
run_store (op ∷ ops) s = run_store ops (on_store op s)

abbrev pub run_rows : List StoreOp → List Row → List Row
run_rows [] rows = rows
run_rows (op ∷ ops) rows = run_rows ops (on_rows op rows)

abbrev pub AllAllowed : List StoreOp → List Row → Type 0
AllAllowed [] rows = Unit
AllAllowed (op ∷ ops) rows = IsAllowed op rows × AllAllowed ops (on_rows op rows)

op-Represents :
    (op : StoreOp) (s : WindowRowStore) (rows : List Row)
    → IsAllowed op rows
    → Represents s rows
    → Represents (on_store op s) (on_rows op rows)
op-Represents (push r) s rows ok valid = push_back-Represents s rows r ok (forms valid)
op-Represents (insert pos r) s rows ok valid = store_at-Represents s rows pos r ok.0 (forms valid)
op-Represents (erase pos) s rows ok valid = remove_at-Represents pos ok valid
op-Represents (overwrite pos r) s rows ok valid = overwrite_at-Represents pos r ok.0 ok.1 valid
op-Represents clear s rows ok valid = new-Represents

run-Represents :
    (ops : List StoreOp) (s : WindowRowStore) (rows : List Row)
    → AllAllowed ops rows
    → Represents s rows
    → Represents (run_store ops s) (run_rows ops rows)
run-Represents [] s rows ok valid = valid
run-Represents (op ∷ ops) s rows ok valid =
    run-Represents ops (on_store op s) (on_rows op rows) ok.1 (op-Represents op s rows ok.0 valid)

-- After any operations from an empty store, at positions inside it and with rows that fit the codec's
-- sizes, each position reads the row that a plain list has there under the same operations, and the
-- size is the list's, whether the store is packed, boxed or flipped on the way, and whenever it
-- compacts.
pub row_at-run_store :
    (ops : List StoreOp) (i : ℕ)
    → AllAllowed ops []
    → (row_at (run_store ops new_store) i ≡ get_elem? (run_rows ops []) i)
      × (size (run_store ops new_store) ≡ length (run_rows ops []))
row_at-run_store ops i ok = row_at-Represents i (run-Represents ops new_store [] ok new-Represents)

-- A packed store's arena.
pub record IsPacked (s : WindowRowStore) (rows : List Row) : Type 0 where
  pub mode : is_packed s.mode ≡ true
  pub stored : Stored s.arena s.slots rows
  pub accounted : IsAccounted s

-- Erasing a row of a packed store, or overwriting one by a row that can be packed and fits the codec's
-- sizes, leaves an arena of less than 4096 bytes, or of at most twice the bytes of the rows.
pub remove_at-IsTight :
    (s : WindowRowStore) (rows : List Row) (pos : ℕ) (r : Row) (b : Bytes)
    → IsPacked s rows
    → pos < length rows
    → encode_row r ≡ some b
    → IsStorable r
    → IsTight (remove_at pos s) × IsTight (overwrite_at pos r s)
unfolding remove_at overwrite_at
remove_at-IsTight s rows pos r b valid inside e storable =
    let small = storable.short b e in
    (
      rw valid.mode
          (maybe_compact-Kept
            (record s { dead = s.dead + len_at s.slots pos; slots = erase_at s.slots pos })
            (erase_at rows pos) (Stored-erase_at pos valid.stored)
            (omega (arith, live-erase_at s.slots pos, valid.accounted))).tight,
      rw (valid.mode, e)
          (maybe_compact-Kept
            (record s {
              dead = s.dead + len_at s.slots pos;
              slots = set s.slots pos (appended s.arena b);
              arena = s.arena ++ b;
            })
            (set rows pos r)
            (Stored-set pos (appended-Holds s.arena b r e storable) (Stored-append b valid.stored))
            (omega (
              arith,
              live-set s.slots pos (appended s.arena b) (omega (arith, Stored-length valid.stored)),
              length-append {0} s.arena b,
              valid.accounted,
            ))).tight,
    )
