-- ===== src/Mesh.antt =====
-- The mesh: links between peers.
pub mod Link
