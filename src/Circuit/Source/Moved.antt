-- ===== src/Circuit/Source/Moved.antt =====
-- include/dbsp_circuit.hpp, SourceNode::step: what the move from `pending_delta_` leads to.
use duck_dbsp.Prelude.{
  ◌≡◌, refl, Bool, true, false, List, [], ◌∷◌, Option, none, some, inl, inr, Bool-cases, ◌>>=◌,
  if◌then◌else◌,
}
use duck_dbsp.Prelude.Int.{ℤ, pos, ◌==ℤ◌}
use duck_dbsp.Prelude.Equality.{Eq}
use duck_dbsp.Zset
use duck_dbsp.Zset.{ZSet, empty}
use duck_dbsp.Circuit.Source.{
  no_index, moved_from, indexed, clear_map, SourceNode, new_source, reset_source, push_borrowed,
  clear_source, insert_slot, plus_slots, push, insert, take_pending, source_step,
}

-- What the program may call on a source.
pub data SourceOp {ℓ} (A : Type ℓ) : Type ℓ where
  push_op borrow_op : ZSet A → SourceOp A
  insert_op : A → ℤ → SourceOp A
  step_op reset_op clear_op : SourceOp A

-- A slot with a weight other than 0.
abbrev pub has_row {ℓ} : {A : Type ℓ} → ZSet A → Bool
has_row [] = false
has_row ((x, w) ∷ z) = let rest = has_row z in if w ==ℤ pos 0 then rest else true

module _ {ℓ} {A : Type ℓ} ⦃key : Eq A⦄ where
  abbrev pub run_op : SourceOp A → SourceNode A → Option (SourceNode A)
  run_op (push_op d) n = push d n
  run_op (borrow_op d) n = some (push_borrowed d n)
  run_op (insert_op x w) n = insert x w n
  run_op step_op n = some (source_step n)
  run_op reset_op n = some (reset_source n)
  run_op clear_op n = some (clear_source n)

  abbrev pub run_ops : List (SourceOp A) → SourceNode A → Option (SourceNode A)
  run_ops [] n = some n
  run_ops (op ∷ ops) n = run_op op n >>= λ n'. run_ops ops n'

  -- A map with an index keeps it.
  pushed_map :
      (z delta : ZSet A) → (z' : ZSet A) × (plus_slots (indexed z) delta ≡ some (indexed z'))
  unfolding plus_slots insert_slot
  pushed_map z [] = (z, refl)
  pushed_map z ((x, w) ∷ delta) = pushed_map (Zset.insert x w z) delta

  first_push :
      (delta : ZSet A)
      → has_row delta ≡ true
      → (z : ZSet A) × (plus_slots no_index delta ≡ some (indexed z))
  unfolding plus_slots insert_slot
  first_push [] e = cc
  first_push ((x, w) ∷ delta) e = elim (Bool-cases (w ==ℤ pos 0)) [
    | inl zero_weight ↦ rw zero_weight (first_push delta (rw zero_weight at e))
    | inr some_weight ↦ rw some_weight (pushed_map (Zset.insert x w empty) delta)
  ]

  plus_slots-moved :
      (delta : ZSet A)
      → plus_slots moved_from delta ≡ (if has_row delta then none else some moved_from)
  unfolding plus_slots insert_slot
  plus_slots-moved [] = refl
  plus_slots-moved ((x, w) ∷ delta) = elim (Bool-cases (w ==ℤ pos 0)) [
    | inl e ↦ rw e (plus_slots-moved delta)
    | inr e ↦ rw e refl
  ]

  push-moved :
      (e : ZSet A) (n : SourceNode A)
      → n.pending_delta ≡ moved_from
      → has_row e ≡ true
      → push e n ≡ none
  unfolding push
  push-moved e n moved row = rw (moved, plus_slots-moved e, row) refl

  taken-moved :
      (current : ZSet A) (borrowed : Option (ZSet A))
      → clear_map (take_pending current moved_from borrowed).1.1 ≡ moved_from
  unfolding take_pending
  taken-moved current none = refl
  taken-moved current (some z) = refl

  step-moved :
      (n : SourceNode A) → n.pending_delta ≡ moved_from → (source_step n).pending_delta ≡ moved_from
  unfolding source_step
  step-moved n moved = elim (Bool-cases n.has_pending) [
    | inl e ↦ rw (e, moved) (taken-moved n.current_output n.borrowed)
    | inr e ↦ rw e moved
  ]

  -- Nothing that the program calls makes an index again.
  run_ops-moved :
      (e : ZSet A) (ops : List (SourceOp A)) (n : SourceNode A)
      → n.pending_delta ≡ moved_from
      → has_row e ≡ true
      → (run_ops ops n >>= λ m. push e m) ≡ none
  unfolding insert push insert_slot source_step take_pending reset_source push_borrowed clear_source
  run_ops-moved e [] n moved row = push-moved e n moved row
  run_ops-moved e (push_op d ∷ ops) n moved row = elim (Bool-cases (has_row d)) [
    | inl yes' ↦ rw (moved, plus_slots-moved d, yes') refl
    | inr no' ↦
        rw (moved, plus_slots-moved d, no')
          (run_ops-moved e ops (record n { pending_delta = moved_from; has_pending = true }) refl
            row)
  ]
  run_ops-moved e (borrow_op d ∷ ops) n moved row =
      run_ops-moved e ops (push_borrowed d n) moved row
  run_ops-moved e (insert_op x w ∷ ops) n moved row = elim (Bool-cases (w ==ℤ pos 0)) [
    | inl hit ↦
        rw (moved, hit)
          (run_ops-moved e ops (record n { pending_delta = moved_from; has_pending = true }) refl
            row)
    | inr miss ↦ rw (moved, miss) refl
  ]
  run_ops-moved e (step_op ∷ ops) n moved row =
      run_ops-moved e ops (source_step n) (step-moved n moved) row
  run_ops-moved e (reset_op ∷ ops) n moved row =
      run_ops-moved e ops (reset_source n) (rw moved refl) row
  run_ops-moved e (clear_op ∷ ops) n moved row = run_ops-moved e ops (clear_source n) moved row

  -- After a push of a Z-set with a slot of a weight other than 0 to a new source, and a step, whatever
  -- is called on the source then: the next push of such a Z-set looks for a slot in an empty index, if
  -- no call before has. This is undefined behaviour.
  pub push-source_step :
      (d e : ZSet A) (ops : List (SourceOp A))
      → has_row d ≡ true
      → has_row e ≡ true
      → (push d new_source >>= λ n. run_ops ops (source_step n) >>= λ m. push e m) ≡ none
  unfolding push source_step take_pending
  push-source_step d e ops row next =
      let (z, held) = first_push d row in
      let n : SourceNode A = record new_source { pending_delta = indexed z; has_pending = true } in
      rw held (run_ops-moved e ops (source_step n) refl next)
