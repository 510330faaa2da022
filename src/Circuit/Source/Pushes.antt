-- ===== src/Circuit/Source/Pushes.antt =====
-- include/dbsp_circuit.hpp, SourceNode::push and SourceNode::step: pushes before the first step.
use duck_dbsp.Prelude.{
  ◌≡◌, refl, ap, sym, ◌∙◌, Bool, true, false, List, [], ◌∷◌, Option, none, some, inl, inr,
  Bool-cases, ◌>>=◌,
}
use duck_dbsp.Prelude.Int.{ℤ, pos, ◌==ℤ◌}
use duck_dbsp.Prelude.Equality.{Eq}
use duck_dbsp.Zset
use duck_dbsp.Zset.{ZSet, empty, plus}
use duck_dbsp.Stream.Run.{plus_all}
use duck_dbsp.Circuit.Source.{
  PendingMap, no_index, moved_from, indexed, slots, after_move, clear_map, SourceNode, new_source,
  insert_slot, plus_slots, push, source_step, source_output, push_borrowed, take_pending,
}

module _ {ℓ} {A : Type ℓ} where
  abbrev pub was_moved : PendingMap A → Bool
  was_moved no_index = false
  was_moved moved_from = true
  was_moved (indexed z) = false

  -- What holds of a source before its first step.
  pub record IsFresh (n : SourceNode A) : Type ℓ where
    pub usable : was_moved n.pending_delta ≡ false
    pub no_borrowed : n.borrowed ≡ none
    pub no_output : source_output n ≡ empty
    pub quiet : n.has_pending ≡ false → slots n.pending_delta ≡ empty

module _ {ℓ} {A : Type ℓ} ⦃key : Eq A⦄ where
  insert_slot-usable :
      (x : A) (w : ℤ) (m : PendingMap A)
      → was_moved m ≡ false
      → (m' : PendingMap A) × (insert_slot x w m ≡ some m')
        × (was_moved m' ≡ false)
        × (slots m' ≡ Zset.insert x w (slots m))
  unfolding insert_slot Zset.insert
  insert_slot-usable x w no_index u = elim (Bool-cases (w ==ℤ pos 0)) [
    | inl e ↦ (no_index, rw e refl, refl, rw e refl)
    | inr e ↦ (indexed (Zset.insert x w empty), rw e refl, refl, refl)
  ]
  insert_slot-usable x w moved_from u = cc
  insert_slot-usable x w (indexed z) u = (indexed (Zset.insert x w z), refl, refl, refl)

  plus_slots-usable :
      (m : PendingMap A) (delta : ZSet A)
      → was_moved m ≡ false
      → (m' : PendingMap A) × (plus_slots m delta ≡ some m')
        × (was_moved m' ≡ false)
        × (slots m' ≡ plus (slots m) delta)
  unfolding plus_slots plus
  plus_slots-usable m [] u = (m, refl, u, refl)
  plus_slots-usable m ((x, w) ∷ delta) u =
      let (m₁, done, u₁, held) = insert_slot-usable x w m u in
      let (m₂, rest, u₂, sum) = plus_slots-usable m₁ delta u₁ in
      (
        m₂,
        ap (λ o. o >>= λ j. plus_slots j delta) done ∙ rest,
        u₂,
        sum ∙ ap (λ z. plus z delta) held,
      )

  -- Pushes, one after the other.
  abbrev pub push_all : List (ZSet A) → SourceNode A → Option (SourceNode A)
  push_all [] n = some n
  push_all (d ∷ ds) n = push d n >>= λ n'. push_all ds n'

  pub push_all-IsFresh :
      (ds : List (ZSet A)) (n : SourceNode A)
      → IsFresh n
      → (n' : SourceNode A) × (push_all ds n ≡ some n')
        × IsFresh n'
        × (slots n'.pending_delta ≡ plus_all (slots n.pending_delta) ds)
  unfolding push source_output
  push_all-IsFresh [] n fresh = (n, refl, fresh, refl)
  push_all-IsFresh (d ∷ ds) n fresh =
      let (m, done, u, sum) = plus_slots-usable n.pending_delta d fresh.usable in
      let n₁ : SourceNode A = record n { pending_delta = m; has_pending = true } in
      let fresh₁ : IsFresh n₁ = record {
        usable = u;
        no_borrowed = fresh.no_borrowed;
        no_output = fresh.no_output;
        quiet = λ e. cc;
      } in
      let (n₂, rest, fresh₂, all) = push_all-IsFresh ds n₁ fresh₁ in
      (n₂, rw done rest, fresh₂, all ∙ ap (λ z. plus_all z ds) sum)

  pub new-IsFresh : IsFresh {A = A} new_source
  unfolding source_output
  new-IsFresh = record { usable = refl; no_borrowed = refl; no_output = refl; quiet = λ e. refl }

  -- Nothing waits, neither pushed nor borrowed.
  pub record IsEmptySource (n : SourceNode A) : Type ℓ where
    pub nothing_held : slots n.pending_delta ≡ empty
    pub nothing_borrowed : n.borrowed ≡ none

  moved-slots : (m : PendingMap A) → slots (clear_map (after_move m)) ≡ empty
  moved-slots no_index = refl
  moved-slots moved_from = refl
  moved-slots (indexed z) = refl

  cleared-slots : (m : PendingMap A) → slots (clear_map m) ≡ empty
  cleared-slots no_index = refl
  cleared-slots moved_from = refl
  cleared-slots (indexed z) = refl

  pub first_step :
      (n : SourceNode A)
      → IsFresh n
      → IsEmptySource (source_step n) × (source_output (source_step n) ≡ slots n.pending_delta)
  unfolding source_step source_output take_pending
  first_step n fresh = elim (Bool-cases n.has_pending) [
    | inl e ↦
        rw (e, fresh.no_borrowed)
          (record { nothing_held = moved-slots n.pending_delta; nothing_borrowed = refl }, refl)
    | inr e ↦ rw e (
      record { nothing_held = fresh.quiet e; nothing_borrowed = fresh.no_borrowed },
      sym (fresh.quiet e),
    )
  ]

  borrowed_taken :
      (current d : ZSet A) (m : PendingMap A)
      → slots m ≡ empty
      → take_pending current m (some d) ≡ (current, (some d, m))
  unfolding take_pending
  borrowed_taken current d no_index e = refl
  borrowed_taken current d moved_from e = refl
  borrowed_taken current d (indexed z) e = rw e refl

  -- A borrowed Z-set is put out as it is, also where the map has been moved from.
  pub borrowed_step :
      (d : ZSet A) (n : SourceNode A)
      → IsEmptySource n
      → IsEmptySource (source_step (push_borrowed d n))
        × (source_output (source_step (push_borrowed d n)) ≡ d)
  unfolding source_step source_output push_borrowed
  borrowed_step d n idle =
      rw (borrowed_taken n.current_output d n.pending_delta idle.nothing_held)
        (record { nothing_held = cleared-slots n.pending_delta; nothing_borrowed = refl }, refl)
