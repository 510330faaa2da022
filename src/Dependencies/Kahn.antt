-- ===== src/Dependencies/Kahn.antt =====
-- include/dbsp_cdc.hpp, DependencyGraph: the degrees that `topological_order` keeps.
mod Degrees
mod Lower
mod Loop
pub use Degrees.*
pub use Lower.*
pub use Loop.*
