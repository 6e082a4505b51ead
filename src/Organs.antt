-- ===== src/Organs.antt =====
-- The organs: the interchange form of graphs, and what works on it.
pub mod Parser
pub mod Subgraph
pub mod Slot
pub mod Query
mod Runs
