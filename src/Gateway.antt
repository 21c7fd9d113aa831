-- ===== src/Gateway.antt =====
-- gateway/: what the router knows of a model endpoint.
pub mod Base
pub mod ModelConfig
