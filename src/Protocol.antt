-- ===== src/Protocol.antt =====
-- The wire protocol: include/protocol/RESP.h and src/protocol/RESP.cpp.
pub mod Value
pub mod Parser
pub mod Lines
pub mod Frames
pub mod RoundTrip
pub mod Divergence
pub mod Progress
pub mod Total
pub mod Extension
pub mod Closed
pub mod Sequence
