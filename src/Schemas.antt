-- ===== src/Schemas.antt =====
-- schemas/: the contracts that the other parts exchange.
pub mod Verification
pub mod Message
pub mod Routing
pub mod Trace
pub mod Rule
