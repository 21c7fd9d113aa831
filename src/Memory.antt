-- ===== src/Memory.antt =====
-- memory/: the offline learning loop, and what it keeps.
pub mod Lifecycle
pub mod Store
pub mod Retrieval
pub mod Gate
pub mod Failures
pub mod Replay
pub mod Hygiene
pub mod Critic
pub mod Clusters
pub mod Vectors
pub mod Recent
pub mod Reflexion
pub mod Exemplars
pub mod Learning
