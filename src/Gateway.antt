-- ===== src/Gateway.antt =====
-- src/main.rs: the gateway itself, from a request of the agent or a command of the operator to the
-- operation that it runs.
pub mod Types
pub mod Request
pub mod Evaluate
pub mod World
pub mod Audit
pub mod Review
pub mod Action
pub mod Admin
pub mod Message
pub mod Execute
pub mod Command
