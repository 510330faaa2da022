-- ===== src/Lib.antt =====
-- Incremental view maintenance on Z-sets: the core of the DBSP extension for DuckDB.
--
-- A Z-set gives each row an integer weight; a change of a table is a Z-set too. The operators take the
-- changes of their inputs and put out the changes of their result, and a view adds those up. The
-- theorems say that what a view has added up is the query on all changes so far.
--
-- Files, and the code they model:
--   Prelude     integers, Boolean tests, lists, decidable equality (no code of the repository)
--   Flat        include/dbsp_zset.hpp, FlatWeightMap: the dense slots, with swap-remove
--   Umap        std::unordered_map as the sources use it, one entry for a key
--   Zset        include/dbsp_zset.hpp, ZSet and product
--   Indexed     include/dbsp_zset.hpp, IndexedZSet and equi_join
--   Stream      include/dbsp_stream.hpp: integration, differentiation, delay, and the incremental
--               operators, join, distinct and aggregates
--   Circuit     include/dbsp_circuit.hpp: Circuit, in Circuit/Source the source node and in
--               Circuit/Nodes the other node types
--   CircuitViews  include/dbsp_circuit_views.hpp: SingleSourceCircuitView, CircuitFilterView,
--               CircuitProjectView and CircuitFilterProjectView
--   View        include/dbsp_duckdb_types.hpp, NativeMaterializedView: the interface of a view, and
--               in View/Batch the default step for the changes of one commit
--   SetView     include/dbsp_set_ops.hpp, NativeSetView: set operations over two such views
--   Views       include/dbsp_materialized_view.hpp: FilteredView, ProjectedView and DistinctView in
--               Views/Single, JoinView in Views/Joined, AggregateView in Views/Grouped,
--               MaterializedViewManager in Views/Manager
--   DistinctOn  include/dbsp_distinct_on.hpp, NativeDistinctOnView, and DuckDBRow::operator<
--   Packed      include/dbsp_packed_row.hpp: a row as a string of bytes
--   Blob        include/dbsp_checkpoint.hpp, BlobWriter and BlobReader
--   Instances   include/dbsp_instance_registry.hpp, InstanceRegistry
--   Names       include/dbsp_qualified_name.hpp: table references, quoting and escaping
--   WindowRows  include/dbsp_window_rows.hpp, WindowRowStore: the rows of a window partition, packed or
--               boxed; its binary searches in WindowRows/Search, its checkpoint in
--               WindowRows/Checkpoint
--   Dependencies  include/dbsp_cdc.hpp, DependencyGraph: which views read which tables and views, the
--               order of updates and the test for cycles
--   PlanNodes   include/dbsp_plan_nodes.hpp, PlanDistinctNode and PlanSetOpNode
--   Recursive   include/dbsp_plan_recursive.hpp, PlanRecursiveNode, over any view for its step
--   Tests       runs on small inputs, and each theorem at an input that meets its hypotheses
--
-- A class is a record of its fields, a method a function from a state to the next one with what it
-- returns. A method on two states of its own, such as one that keeps a result and a delta, acts on the
-- pair. Loops over a container go through its slots in order. A circuit's nodes read each other's
-- outputs, so a node's step acts on the state of all nodes; a borrowed Z-set is the value that the
-- caller keeps alive during the step.
--
-- Weights and the values of aggregates are integers without bound: overflow of int64_t is undefined
-- behaviour in the sources. Version and time counters wrap at 2 ^ 64. The order of iteration of a hash
-- map is unspecified; the model takes one order, and the theorems compare Z-sets by their weights. Row,
-- key, table and name types are parameters with an equality that is right; hashes do not appear. All
-- loops are structural but the binary searches and the loops over a queue of the dependency graph,
-- which run on fuel: a search takes the number of rows, as each round shortens the range, a walk of the
-- graph the number of edges, as each node is visited once, and the order of updates the number of
-- affected nodes, as each enters the queue once. The loops of a recursive node have the sources' own
-- bound, `max_iterations_`.
--
-- The source node moves from a map and uses it again, so this map is modelled with its index: a move
-- takes the slots and the index and leaves the capacity (a std::vector that was moved from is taken to
-- be empty), and a write to such a map, which is undefined behaviour, gives `none`. Left out is that
-- `clear` gives back the memory of more than 65536 slots: there the code has a map without capacity and
-- the model one with an index over no slots. Both take a push; only a move from that map before
-- anything is written to it again leaves the code's usable and the model's not.
--
-- std::multiset is a list in the comparator's order, and std::map an association list by the equality
-- of keys, which stands for the equivalence under `<`. The codec of packed rows works on lists of
-- bytes; a scalar is its bit pattern. A read past the end of a buffer, which is undefined behaviour, is
-- a result of its own. `==` and `<` of duckdb::Value are parameters.
--
-- The proofs read a Z-set as a linear form: `total g z` is the sum of weight times `g` over the slots
-- (Zset/Total), and a reduced Z-set has the weights that its forms give (Zset/Assign, Zset/Same).
--
-- The step of a recursive query is any view with the interface of `View`. What such a view has been fed
-- for a table is a parameter of the theorem that needs it, a weight for each row that `apply_changes`
-- adds to.
--
-- Not modelled: the open-addressing index over the slots of FlatWeightMap and the function `aggregate`
-- of include/dbsp_zset.hpp; the checkpoint interface of nodes; the views over DuckDB plans but for the
-- nodes above, an exception from a recursive step, the rest of include/dbsp_cdc.hpp, the frames of
-- windows, spilling, the checkpoint store, recovery and the extension's entry points.
pub mod Blob
pub mod Circuit
pub mod CircuitViews
pub mod Dependencies
pub mod DistinctOn
pub mod Flat
pub mod Indexed
pub mod Instances
pub mod Names
pub mod Packed
pub mod PlanNodes
pub mod Prelude
pub mod Recursive
pub mod SetView
pub mod Stream
pub mod Tests
pub mod Umap
pub mod View
pub mod Views
pub mod WindowRows
pub mod Zset
