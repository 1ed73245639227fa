-- ===== src/Protocol.antt =====
-- The wire protocol (include/p2pgpu/protocol and src/protocol): identifiers, the error model, the
-- limits, the ten invariants and the frame header.
pub mod Ids
pub mod Errors
pub mod Chains
pub mod Limits
pub mod Invariants
pub mod Frame
