-- ===== src/Flat.antt =====
-- include/dbsp_zset.hpp, FlatWeightMap: the dense vector `entries_` of the weight map. An entry that
-- a reference or an iterator points to is named by its key.
pub mod Measures
use duck_dbsp.Prelude.{
  ℕ, suc, ◌+◌, Bool, true, false, List, [], ◌∷◌, ◌++◌, Option, none, some, if◌then◌else◌, length,
}
use duck_dbsp.Prelude.Int.{ℤ, pos}
use duck_dbsp.Prelude.Equality.{Eq, ◌==◌}

-- The slots `first`, `second`, in the order of the vector.
abbrev pub FlatWeightMap {ℓ} : Type ℓ → Type ℓ
FlatWeightMap A = List (A × ℤ)

-- `it != end() ? it->second : 0`
abbrev pub found : Option ℤ → ℤ
found none = pos 0
found (some w) = w

module _ {ℓ} {A : Type ℓ} where
  -- The last slot of a vector that starts with `e`.
  unfoldable pub last_slot : A × ℤ → FlatWeightMap A → A × ℤ
  last_slot e [] = e
  last_slot e (x ∷ es) = last_slot x es

  -- `pop_back` on a vector that starts with `e`.
  unfoldable pub pop_back : A × ℤ → FlatWeightMap A → FlatWeightMap A
  pop_back e [] = []
  pop_back e (x ∷ es) = e ∷ pop_back x es

  -- The last slot moves into the hole in front of `es`.
  unfoldable pub fill_hole : FlatWeightMap A → FlatWeightMap A
  unfolding last_slot pop_back
  fill_hole [] = []
  fill_hole (x ∷ es) = last_slot x es ∷ pop_back x es

module _ {ℓ} {A : Type ℓ} ⦃key : Eq A⦄ where
  -- `it->second`, unless `it` is the end.
  unfoldable pub find : A → FlatWeightMap A → Option ℤ
  find k [] = none
  find k ((j, w) ∷ es) = if j == k then some w else find k es

  unfoldable pub count : A → FlatWeightMap A → ℕ
  unfolding find
  count k es = elim (find k es) [ none ↦ 0 | some w ↦ 1 ]

  -- The slot of the key, made with weight 0 at the end if there is none.
  unfoldable pub slot_for : A → FlatWeightMap A → FlatWeightMap A
  slot_for k [] = (k, pos 0) ∷ []
  slot_for k ((j, w) ∷ es) = if j == k then (j, w) ∷ es else (j, w) ∷ slot_for k es

  -- A write through the reference to the key's slot.
  unfoldable pub write : A → (ℤ → ℤ) → FlatWeightMap A → FlatWeightMap A
  write k f [] = []
  write k f ((j, w) ∷ es) = if j == k then (j, f w) ∷ es else (j, w) ∷ write k f es

  unfoldable pub erase : A → FlatWeightMap A → FlatWeightMap A
  unfolding fill_hole
  erase k [] = []
  erase k ((j, w) ∷ es) = if j == k then fill_hole es else (j, w) ∷ erase k es
