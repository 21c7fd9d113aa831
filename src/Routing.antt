-- ===== src/Routing.antt =====
-- routing/: which model a request goes to, and its way from the policy gate to the answer.
pub mod Threshold
pub mod Policy
pub mod World
pub mod Escalation
pub mod Small
pub mod Quiet
pub mod Router
