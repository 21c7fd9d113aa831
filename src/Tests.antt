-- ===== src/Tests.antt =====
-- Runs and instances of the development at concrete inputs.
mod Samples
mod Verdicts
mod Requests
mod Tooling
mod Answers
mod Learning
mod Selection
mod Failing
mod Reloading
mod Validation
mod Distilling
mod Serving
mod Showing
mod Keeping
mod Cycle
mod Replaying
