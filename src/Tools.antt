-- ===== src/Tools.antt =====
-- tools/: the registry of tools, the gateway to their servers, and the two-phase commit.
pub mod Errors
pub mod Json
pub mod Value
pub mod Schema
pub mod Reversibility
pub mod Registry
pub mod Gateway
pub mod Proposal
pub mod Commit
