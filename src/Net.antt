-- ===== src/Net.antt =====
-- The network layer: include/net and src/net.
pub mod Connection
pub mod Writing
