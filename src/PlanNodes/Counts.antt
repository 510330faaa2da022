-- ===== src/PlanNodes/Counts.antt =====
-- include/dbsp_plan_nodes.hpp, PlanSetOpNode: the counts of a row for its inputs.
use mathlib.Core.Path.{subst}
use duck_dbsp.Prelude.{
  ℕ, zero, suc, ◌≡◌, refl, sym, ap, ◌∙◌, ◌⊎◌, inl, inr, true, List, [], ◌∷◌, none, some,
  if◌then◌else◌, length, Bool-cases, Option-cases, arith,
}
use duck_dbsp.Prelude.Int.{ℤ, pos, ◌+ℤ◌, ◌*ℤ◌, ==ℤ_iff, int_laws, mul-zero, mul-one}
use duck_dbsp.Prelude.Equality.{Eq, ◌==◌}
use duck_dbsp.Umap
use duck_dbsp.Umap.{Umap}
use duck_dbsp.Umap.Sums.{UniqueKeys, find-update, update-UniqueKeys}
use duck_dbsp.Flat.Measures.{tally}
use duck_dbsp.Zset.{ZSet}
use duck_dbsp.Zset.Total.{total}
use duck_dbsp.Zset.Assign.{unit_at}
use duck_dbsp.PlanNodes.{
  resize, add_at, all_zero, counts_of, keep_old, collect_slot, collect_input, collect,
}

pub length-resize : (n : ℕ) (v : List ℤ) → length (resize n v) ≡ n
unfolding resize
length-resize zero v = refl
length-resize (suc n) [] = ap suc (length-resize n [])
length-resize (suc n) (c ∷ v) = ap suc (length-resize n v)

-- A vector of the right size stays as it is.
pub resize-same : (n : ℕ) (v : List ℤ) → length v ≡ n → resize n v ≡ v
unfolding resize
resize-same zero [] h = refl
resize-same zero (c ∷ v) h = absurd (omega (arith, h))
resize-same (suc n) [] h = absurd (omega (arith, h))
resize-same (suc n) (c ∷ v) h = ap (λ (u : List ℤ). c ∷ u) (resize-same n v (omega (arith, h)))

pub all_zero-resize : (n : ℕ) (v : List ℤ) → length v ≡ n → all_zero v ≡ true → resize n [] ≡ v
unfolding resize all_zero
all_zero-resize zero [] h z = refl
all_zero-resize zero (c ∷ v) h z = absurd (omega (arith, h))
all_zero-resize (suc n) [] h z = absurd (omega (arith, h))
all_zero-resize (suc n) (c ∷ v) h z =
    ground (arith, ==ℤ_iff c (pos 0), all_zero-resize n v (omega (arith, h)))

length-add_at : (i : ℕ) (w : ℤ) (v : List ℤ) → length (add_at i w v) ≡ length v
unfolding add_at
length-add_at i w [] = refl
length-add_at zero w (c ∷ v) = refl
length-add_at (suc i) w (c ∷ v) = ap suc (length-add_at i w v)

add_at-zero : (i : ℕ) (v : List ℤ) → add_at i (pos 0) v ≡ v
unfolding add_at
add_at-zero i [] = refl
add_at-zero zero (c ∷ v) = ap (λ (d : ℤ). d ∷ v) (omega int_laws)
add_at-zero (suc i) (c ∷ v) = ap (λ (u : List ℤ). c ∷ u) (add_at-zero i v)

add_at-add_at : (i : ℕ) (a b : ℤ) (v : List ℤ) → add_at i a (add_at i b v) ≡ add_at i (b +ℤ a) v
unfolding add_at
add_at-add_at i a b [] = refl
add_at-add_at zero a b (c ∷ v) = ap (λ (d : ℤ). d ∷ v) (omega int_laws)
add_at-add_at (suc i) a b (c ∷ v) = ap (λ (u : List ℤ). c ∷ u) (add_at-add_at i a b v)

module _ {ℓ} {R : Type ℓ} ⦃er : Eq R⦄ (n : ℕ) (row : R) where
  -- The counts of the row, of no entry zero each.
  abbrev pub seen : Umap R (List ℤ) → List ℤ
  seen m = resize n (counts_of row m)

  -- Either the row has not been met and has what it had before, or what it had before is kept and its
  -- entry has the right size.
  abbrev pub Met : List ℤ → List ℤ → Umap R (List ℤ) → Umap R (List ℤ) → Type 0
  Met before now counts old =
      ((Umap.find row old ≡ none) × (now ≡ before))
      ⊎ ((Umap.find row old ≡ some before) × (length (counts_of row counts) ≡ n))

  -- The row has the counts `now`, and `before` when the step began.
  pub record Tracks (before now : List ℤ) (counts old : Umap R (List ℤ)) : Type ℓ where
    pub unique : UniqueKeys counts
    pub unique_old : UniqueKeys old
    pub has : seen counts ≡ now
    pub met : Met before now counts old

  counts_of-update :
      (x : R) (f : List ℤ → List ℤ) (m : Umap R (List ℤ))
      → counts_of row (Umap.update [] x f m)
        ≡ (if x == row then f (counts_of row m) else counts_of row m)
  counts_of-update x f m = elim (Bool-cases (x == row)) [
    | inl hit ↦
        rw (find-update [] x row f m, hit)
          (ap (λ (r : R). f (counts_of r m)) ((er.equal_iff x row).0 hit))
    | inr miss ↦ rw (find-update [] x row f m, miss) refl
  ]

  find-keep_old :
      (x : R) (now : List ℤ) (old : Umap R (List ℤ))
      → Umap.find row (keep_old x now old)
        ≡ (if x == row then some (Umap.or_default now (Umap.find row old)) else Umap.find row old)
  find-keep_old x now old = elim (Option-cases (Umap.find x old)) [
    | inl new ↦
        rw (new, keep_old)
          (elim (Bool-cases (x == row)) [
            | inl hit ↦
                let none_yet : Umap.find row old ≡ none = rw (← (er.equal_iff x row).0 hit) new in
                rw (find-update [] x row (λ _. now) old, hit, none_yet) refl
            | inr miss ↦ rw (find-update [] x row (λ _. now) old, miss) refl
          ])
    | inr (v, e) ↦
        rw (e, keep_old)
          (elim (Bool-cases (x == row)) [
            | inl hit ↦
                let there : Umap.find row old ≡ some v = rw (← (er.equal_iff x row).0 hit) e in
                rw (hit, there) refl
            | inr miss ↦ rw miss refl
          ])
  ]

  keep_old-UniqueKeys :
      (x : R) (now : List ℤ) (old : Umap R (List ℤ))
      → UniqueKeys old
      → UniqueKeys (keep_old x now old)
  keep_old-UniqueKeys x now old u = elim (Option-cases (Umap.find x old)) [
    | inl new ↦ rw (new, keep_old) (update-UniqueKeys [] x (λ _. now) old u)
    | inr (v, e) ↦ rw (e, keep_old) u
  ]

  kept_before :
      (v before now : List ℤ) (counts old : Umap R (List ℤ))
      → v ≡ now
      → Met before now counts old
      → Umap.or_default v (Umap.find row old) ≡ before
  kept_before v before now counts old e (inl (new, same)) = rw new (e ∙ same)
  kept_before v before now counts old e (inr (there, long)) = rw there refl

  -- A slot of input `i` adds its weight to the count at `i` of its row.
  collect_slot-Tracks :
      (i : ℕ) (x : R) (w : ℤ) (before now : List ℤ) (counts old : Umap R (List ℤ))
      → Tracks before now counts old
      → Tracks before
          (if x == row then add_at i w now else now)
          (collect_slot n i x w (counts, old)).0
          (collect_slot n i x w (counts, old)).1
  unfolding collect_slot
  collect_slot-Tracks i x w before now counts old t =
      let sized = Umap.update [] x (resize n) counts in
      let u = update-UniqueKeys [] x (resize n) counts t.unique in
      let first = counts_of-update x (resize n) counts in
      let second = counts_of-update x (add_at i w) sized in
      let kept = find-keep_old x (counts_of x sized) old in
      elim (Bool-cases (x == row)) [
        | inl hit ↦
            let same = (er.equal_iff x row).0 hit in
            let there : counts_of row sized ≡ now = first ∙ rw hit t.has in
            let after : counts_of row (Umap.update [] x (add_at i w) sized) ≡ add_at i w now =
              second ∙ rw hit (ap (add_at i w) there) in
            let long : length (add_at i w now) ≡ n =
              length-add_at i w now
              ∙ ap length (sym t.has)
              ∙ length-resize n (counts_of row counts) in
            let held : Umap.or_default (counts_of x sized) (Umap.find row old) ≡ before =
              kept_before (counts_of x sized) before now counts old
                (ap (λ (r : R). counts_of r sized) same ∙ there) t.met in
            rw hit (record {
              unique = update-UniqueKeys [] x (add_at i w) sized u;
              unique_old = keep_old-UniqueKeys x (counts_of x sized) old t.unique_old;
              has = ap (resize n) after ∙ resize-same n (add_at i w now) long;
              met = inr (kept ∙ rw hit (ap some held), ap length after ∙ long);
            })
        | inr miss ↦
            let still : counts_of row (Umap.update [] x (add_at i w) sized) ≡ counts_of row counts =
              second ∙ rw miss (first ∙ rw miss refl) in
            rw miss (record {
              unique = update-UniqueKeys [] x (add_at i w) sized u;
              unique_old = keep_old-UniqueKeys x (counts_of x sized) old t.unique_old;
              has = ap (resize n) still ∙ t.has;
              met = elim t.met [
                | inl p ↦ inl (kept ∙ rw miss p.0, p.1)
                | inr p ↦ inr (kept ∙ rw miss p.0, ap length still ∙ p.1)
              ];
            })
      ]

  -- The row's counts after the slots of input `i`, and after the inputs from `i` on.
  abbrev weight : ZSet R → ℤ
  weight z = total (unit_at row) z

  slot_weight :
      (i : ℕ) (a : ℤ) (x : R) (w : ℤ) (now : List ℤ)
      → add_at i a (if x == row then add_at i w now else now)
        ≡ add_at i (w *ℤ unit_at row x +ℤ a) now
  slot_weight i a x w now = elim (Bool-cases (x == row)) [
    | inl hit ↦ rw (hit, mul-one w) (add_at-add_at i a w now)
    | inr miss ↦ rw (miss, mul-zero w) (ap (λ (b : ℤ). add_at i b now) (omega int_laws))
  ]

  collect_input-Tracks :
      (i : ℕ) (z : ZSet R) (before now : List ℤ) (counts old : Umap R (List ℤ))
      → Tracks before now counts old
      → Tracks before
          (add_at i (weight z) now)
          (collect_input n i z (counts, old)).0
          (collect_input n i z (counts, old)).1
  unfolding collect_input total tally
  collect_input-Tracks i [] before now counts old t = rw (add_at-zero i now) t
  collect_input-Tracks i ((x, w) ∷ z) before now counts old t =
      let s = collect_slot n i x w (counts, old) in
      let slot = collect_slot-Tracks i x w before now counts old t in
      let after = collect_input n i z s in
      subst (λ (v : List ℤ). Tracks before v after.0 after.1) (slot_weight i (weight z) x w now)
        (collect_input-Tracks i z before _ s.0 s.1 slot)

  abbrev pub inputs_at : ℕ → List (ZSet R) → List ℤ → List ℤ
  inputs_at i [] v = v
  inputs_at i (z ∷ zs) v = inputs_at (suc i) zs (add_at i (weight z) v)

  pub collect-Tracks :
      (i : ℕ) (zs : List (ZSet R)) (before now : List ℤ) (counts old : Umap R (List ℤ))
      → Tracks before now counts old
      → Tracks before
          (inputs_at i zs now)
          (collect n i zs (counts, old)).0
          (collect n i zs (counts, old)).1
  unfolding collect
  collect-Tracks i [] before now counts old t = t
  collect-Tracks i (z ∷ zs) before now counts old t =
      let s = collect_input n i z (counts, old) in
      collect-Tracks (suc i) zs before _ s.0 s.1 (collect_input-Tracks i z before now counts old t)
