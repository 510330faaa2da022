-- ===== src/Circuit.antt =====
-- include/dbsp_circuit.hpp, Circuit: the nodes, run in the order in which they were added. A node
-- reads the outputs of others through its input functions, so its step acts on the state `S` of all
-- nodes.
pub mod Nodes
pub mod Source
pub mod Registry
pub mod Sinks
pub mod Filtered
pub mod Pipeline
use duck_dbsp.Prelude.{ℕ, ◌+◌, ◌%◌, ◌^◌, zero, suc, List, [], ◌∷◌, ◌++◌, Option, none, some, length}
use duck_dbsp.Prelude.Equality.{nat_eq}
use duck_dbsp.Umap
use duck_dbsp.Umap.{Umap}

pub record Node {ℓ} (S : Type ℓ) : Type ℓ where
  pub id : ℕ
  pub step : S → S
  pub reset : S → S

pub record Circuit {ℓ} (S : Type ℓ) : Type ℓ where
  pub nodes : List (Node S)
  pub nodes_by_id : Umap ℕ ℕ
  pub time : ℕ
  pub next_id : ℕ

module _ {ℓ} {S : Type ℓ} where
  abbrev pub new_circuit : Circuit S
  new_circuit = record { nodes = []; nodes_by_id = []; time = 0; next_id = 0 }

  unfoldable pub add_node : Node S → Circuit S → Circuit S
  add_node node c = record c {
    nodes_by_id = Umap.update 0 node.id (λ _. length c.nodes) c.nodes_by_id;
    nodes = c.nodes ++ (node ∷ []);
  }

  unfoldable pub step_nodes : List (Node S) → S → S
  step_nodes [] s = s
  step_nodes (node ∷ nodes) s = step_nodes nodes (node.step s)

  unfoldable pub step : Circuit S → S → Circuit S × S
  unfolding step_nodes
  step c s = (record c { time = (c.time + 1) % 2 ^ 64 }, step_nodes c.nodes s)

  unfoldable pub reset_nodes : List (Node S) → S → S
  reset_nodes [] s = s
  reset_nodes (node ∷ nodes) s = reset_nodes nodes (node.reset s)

  unfoldable pub reset : Circuit S → S → Circuit S × S
  unfolding reset_nodes
  reset c s = (record c { time = 0 }, reset_nodes c.nodes s)

  -- `nodes_[i]`
  unfoldable pub node_at : List (Node S) → ℕ → Option (Node S)
  node_at [] i = none
  node_at (node ∷ nodes) zero = some node
  node_at (node ∷ nodes) (suc i) = node_at nodes i

  unfoldable pub found_node : List (Node S) → Option ℕ → Option (Node S)
  unfolding node_at
  found_node nodes none = none
  found_node nodes (some i) = node_at nodes i

  unfoldable pub get_node : ℕ → Circuit S → Option (Node S)
  unfolding found_node
  get_node id c = found_node c.nodes (Umap.find id c.nodes_by_id)

  unfoldable pub node_count : Circuit S → ℕ
  node_count c = length c.nodes

  unfoldable pub next_node_id : Circuit S → ℕ × Circuit S
  next_node_id c = (c.next_id, record c { next_id = (c.next_id + 1) % 2 ^ 64 })
