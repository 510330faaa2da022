-- ===== src/Circuit/Registry.antt =====
-- The node list of Circuit and its index by id.
use duck_dbsp.Prelude.{
  ℕ, zero, suc, ◌≡◌, refl, ap, sym, ◌∙◌, List, [], ◌∷◌, ◌++◌, none, some, length, inl, inr,
  Bool-cases, Option-cases, if◌then◌else◌,
}
use duck_dbsp.Prelude.Equality.{nat_eq, ◌==◌}
use duck_dbsp.Umap
use duck_dbsp.Umap.{Umap}
use duck_dbsp.Umap.Sums.{find-update}
use duck_dbsp.Circuit.{Node, Circuit, add_node, node_at, found_node, get_node, new_circuit}

some-inj : (i j : ℕ) → some i ≡ some j → i ≡ j
some-inj i j e = ap (Umap.or_default i) e

module _ {ℓ} {S : Type ℓ} where
  node_at-last :
      (nodes : List (Node S)) (n : Node S) → node_at (nodes ++ (n ∷ [])) (length nodes) ≡ some n
  unfolding node_at
  node_at-last [] n = refl
  node_at-last (m ∷ nodes) n = node_at-last nodes n

  node_at-before :
      (nodes : List (Node S)) (n m : Node S) (i : ℕ)
      → node_at nodes i ≡ some m
      → node_at (nodes ++ (n ∷ [])) i ≡ some m
  unfolding node_at
  node_at-before [] n m i e = let clash : none ≡ some m = e in cc
  node_at-before (k ∷ nodes) n m zero e = e
  node_at-before (k ∷ nodes) n m (suc i) e = node_at-before nodes n m i e

  -- Every id in the index stands for a node that has it.
  pub IsIndexed : Circuit S → Type ℓ
  IsIndexed c =
      (id i : ℕ)
      → Umap.find id c.nodes_by_id ≡ some i
      → (m : Node S) × (node_at c.nodes i ≡ some m) × (m.id ≡ id)

  added :
      (n : Node S) (c : Circuit S) (id : ℕ)
      → Umap.find id (add_node n c).nodes_by_id
        ≡ (if n.id == id then some (length c.nodes) else Umap.find id c.nodes_by_id)
  unfolding add_node
  added n c id = find-update 0 n.id id (λ _. length c.nodes) c.nodes_by_id

  pub add_node-IsIndexed : (n : Node S) (c : Circuit S) → IsIndexed c → IsIndexed (add_node n c)
  unfolding IsIndexed add_node
  add_node-IsIndexed n c valid id i e = elim (Bool-cases (n.id == id)) [
    | inl hit ↦
        let here : some (length c.nodes) ≡ some i = sym (rw hit at (added n c id)) ∙ e in
        (
          n,
          ap (node_at (c.nodes ++ (n ∷ []))) (sym (some-inj (length c.nodes) i here))
              ∙ node_at-last c.nodes n,
          (nat_eq.equal_iff n.id id).0 hit,
        )
    | inr miss ↦
        let old : Umap.find id c.nodes_by_id ≡ some i = sym (rw miss at (added n c id)) ∙ e in
        let (m, at, same) = valid id i old in (m, node_at-before c.nodes n m i at, same)
  ]

  found-before :
      (n : Node S) (c : Circuit S) (id : ℕ)
      → IsIndexed c
      → found_node (c.nodes ++ (n ∷ [])) (Umap.find id c.nodes_by_id) ≡ get_node id c
  unfolding get_node found_node IsIndexed
  found-before n c id valid = elim (Option-cases (Umap.find id c.nodes_by_id)) [
    | inl e ↦ rw e refl
    | inr (i, e) ↦
        let (m, at, same) = valid id i e in rw e (node_at-before c.nodes n m i at ∙ sym at)
  ]

  -- On a circuit whose index is right, an added node is found under its id, every other id finds the
  -- node it found before, and the index stays right.
  pub get_node-add_node :
      (n : Node S) (c : Circuit S) (id : ℕ)
      → IsIndexed c
      → (get_node id (add_node n c) ≡ (if n.id == id then some n else get_node id c))
        × IsIndexed (add_node n c)
  unfolding get_node found_node add_node IsIndexed
  get_node-add_node n c id valid = (
    ap (found_node (c.nodes ++ (n ∷ []))) (added n c id) ∙ elim (Bool-cases (n.id == id)) [
      | inl hit ↦ rw hit (node_at-last c.nodes n)
      | inr miss ↦ rw miss (found-before n c id valid)
    ],
    add_node-IsIndexed n c valid,
  )

pub new-IsIndexed {ℓ} : (S : Type ℓ) → IsIndexed {S = S} new_circuit
unfolding IsIndexed Umap.find
new-IsIndexed S id i e = let clash : none ≡ some i = e in cc
