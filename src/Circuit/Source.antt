-- ===== src/Circuit/Source.antt =====
-- include/dbsp_circuit.hpp, SourceNode. A step moves from `pending_delta_`, so the map it stands on
-- (include/dbsp_zset.hpp, FlatWeightMap) is modelled with what a move leaves of it.
pub mod Pushes
pub mod Moved
use duck_dbsp.Prelude.{Bool, true, false, List, [], ◌∷◌, Option, none, some, if◌then◌else◌, ◌>>=◌}
use duck_dbsp.Prelude.Int.{ℤ, pos, ◌==ℤ◌}
use duck_dbsp.Prelude.Equality.{Eq}
use duck_dbsp.Zset
use duck_dbsp.Zset.{ZSet, empty}
use duck_dbsp.Indexed.{is_empty}

-- A FlatWeightMap: with no capacity yet, with slots and an index over them, or moved from, which takes
-- the slots and the index and leaves the capacity, so that `slot_for` does not make an index again.
-- `clear` also gives the capacity of more than 65536 slots back: here the index stays.
pub data PendingMap {ℓ} (A : Type ℓ) : Type ℓ where
  no_index moved_from : PendingMap A
  indexed : ZSet A → PendingMap A

module _ {ℓ} {A : Type ℓ} where
  -- What the map holds.
  abbrev pub slots : PendingMap A → ZSet A
  slots no_index = empty
  slots moved_from = empty
  slots (indexed z) = z

  -- What the implicit move leaves: the capacity stays.
  abbrev pub after_move : PendingMap A → PendingMap A
  after_move no_index = no_index
  after_move moved_from = moved_from
  after_move (indexed z) = moved_from

  -- `clear` makes no index.
  abbrev pub clear_map : PendingMap A → PendingMap A
  clear_map no_index = no_index
  clear_map moved_from = moved_from
  clear_map (indexed z) = indexed empty

-- A borrowed Z-set is the value that the caller keeps alive until the step returns.
pub record SourceNode {ℓ} (A : Type ℓ) : Type ℓ where
  pub pending_delta : PendingMap A
  pub current_output : ZSet A
  pub borrowed : Option (ZSet A)
  pub external_output : Option (ZSet A)
  pub has_pending : Bool
  pub has_output : Bool

module _ {ℓ} {A : Type ℓ} where
  abbrev pub new_source : SourceNode A
  new_source = record {
    pending_delta = no_index;
    current_output = empty;
    borrowed = none;
    external_output = none;
    has_pending = false;
    has_output = false;
  }

  unfoldable pub reset_source : SourceNode A → SourceNode A
  reset_source n = record {
    pending_delta = clear_map n.pending_delta;
    current_output = empty;
    borrowed = none;
    external_output = none;
    has_pending = false;
    has_output = false;
  }

  unfoldable pub push_borrowed : ZSet A → SourceNode A → SourceNode A
  push_borrowed delta n = record n { borrowed = some delta; has_pending = true }

  unfoldable pub clear_source : SourceNode A → SourceNode A
  clear_source n = record n { current_output = empty; external_output = none; has_output = false }

  unfoldable pub source_output : SourceNode A → ZSet A
  source_output n = elim n.external_output [ none ↦ n.current_output | some z ↦ z ]

module _ {ℓ} {A : Type ℓ} ⦃key : Eq A⦄ where
  -- `none`: a slot is looked for in the empty index of a map that was moved from.
  unfoldable pub insert_slot : A → ℤ → PendingMap A → Option (PendingMap A)
  insert_slot x w no_index =
      if w ==ℤ pos 0 then some no_index else some (indexed (Zset.insert x w empty))
  insert_slot x w moved_from = if w ==ℤ pos 0 then some moved_from else none
  insert_slot x w (indexed z) = some (indexed (Zset.insert x w z))

  -- `operator+=`
  unfoldable pub plus_slots : PendingMap A → ZSet A → Option (PendingMap A)
  unfolding insert_slot
  plus_slots m [] = some m
  plus_slots m ((x, w) ∷ other) = insert_slot x w m >>= λ m'. plus_slots m' other

  unfoldable pub push : ZSet A → SourceNode A → Option (SourceNode A)
  unfolding plus_slots
  push delta n = do
    m ← plus_slots n.pending_delta delta
    some (record n { pending_delta = m; has_pending = true })

  unfoldable pub insert : A → ℤ → SourceNode A → Option (SourceNode A)
  unfolding insert_slot
  insert x w n = do
    m ← insert_slot x w n.pending_delta
    some (record n { pending_delta = m; has_pending = true })

  -- What a step with something pending puts out: the current and the external output, and what is
  -- left of the pending map. A map that holds something has an index.
  unfoldable pub take_pending :
      ZSet A → PendingMap A → Option (ZSet A) → ZSet A × (Option (ZSet A) × PendingMap A)
  take_pending current m none = (slots m, (none, after_move m))
  take_pending current no_index (some z) = (current, (some z, no_index))
  take_pending current moved_from (some z) = (current, (some z, moved_from))
  take_pending current (indexed pending) (some z) =
      if is_empty pending
      then (current, (some z, indexed pending))
      else (Zset.plus pending z, (none, moved_from))

  unfoldable pub source_step : SourceNode A → SourceNode A
  unfolding take_pending
  source_step n =
      if n.has_pending
      then (let (current, (external, rest)) =
            take_pending n.current_output n.pending_delta n.borrowed in
          record {
            pending_delta = clear_map rest;
            current_output = current;
            borrowed = none;
            external_output = external;
            has_pending = false;
            has_output = true;
          })
      else record n { current_output = empty; external_output = none; has_output = false }
