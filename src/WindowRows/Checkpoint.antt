-- ===== src/WindowRows/Checkpoint.antt =====
-- include/dbsp_window_rows.hpp, the checkpoint of a packed store: the lengths of its rows and their
-- bytes, in order.
use duck_dbsp.Prelude.{
  ℕ, zero, suc, ◌+◌, ◌*◌, ◌%◌, ◌^◌, Bool, true, false, List, [], ◌∷◌, ◌++◌, none, some,
  if◌then◌else◌, ◌==◌, length,
}
use duck_dbsp.Packed.{Bytes, put_raw, get_raw}
use duck_dbsp.Blob.{BlobReader, ReadResult, ok, ◌>>=◌, write_bytes, byte_string}
use duck_dbsp.WindowRows.{Slot, WindowRowStore, undecided, packed, new_store, slice}

unfoldable pub lens_bytes : List Slot → Bytes
lens_bytes [] = []
lens_bytes (slot ∷ slots) = put_raw 4 slot.len ++ lens_bytes slots

unfoldable pub live_bytes : Bytes → List Slot → Bytes
live_bytes arena [] = []
live_bytes arena (slot ∷ slots) = slice arena slot ++ live_bytes arena slots

unfoldable pub serialize_packed : WindowRowStore → Bytes
unfolding lens_bytes live_bytes
serialize_packed s = write_bytes (lens_bytes s.slots) ++ write_bytes (live_bytes s.arena s.slots)

-- The loop over the lengths: the slots, and the offset behind the last one.
unfoldable pub read_slots : ℕ → ℕ → Bytes → List Slot × ℕ
read_slots zero off lens = ([], off)
read_slots (suc n) off lens = elim (get_raw 4 lens) [
  | none ↦ ([], off)
  | some (len, rest) ↦
      let (slots, end) = read_slots n ((off + len) % 2 ^ 64) rest in
      (record { off = off; len = len } ∷ slots, end)
]

-- The store once both byte strings are read, and whether it has been restored.
unfoldable pub restore_parts : ℕ → Bytes → Bytes → WindowRowStore → Bool × WindowRowStore
unfolding read_slots
restore_parts n_rows lens bytes s =
    let (slots, end) = read_slots n_rows 0 lens in
    if length lens == n_rows * 4 % 2 ^ 64
    then (if end == length bytes
        then (
          true,
          record {
            mode = if n_rows == 0 then undecided else packed;
            arena = bytes;
            slots = slots;
            dead = 0;
            rows = [];
          },
        )
        else (false, new_store))
    else (false, s)

unfoldable pub restore_packed : ℕ → BlobReader → WindowRowStore → ReadResult (Bool × WindowRowStore)
unfolding restore_parts
restore_packed n_rows r s = byte_string r >>= λ lens r'.
    byte_string r' >>= λ bytes r''. ok (restore_parts n_rows lens bytes s) r''
