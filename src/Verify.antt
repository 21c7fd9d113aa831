-- ===== src/Verify.antt =====
-- verify/: what is checked before an answer leaves the router.
pub mod Base
pub mod Timing
pub mod Free
pub mod Cheap
pub mod LlmJudge
pub mod Result
pub mod Ladder
