-- ===== src/Engine.antt =====
-- agent-rust/src/engine.rs: the loop of the engine, and what it does with the calls of a decision.
pub mod Settle
pub mod Wire
pub mod Payload
pub mod Request
pub mod Budget
pub mod Provider
pub mod Decide
pub mod Parts
pub mod Answer
pub mod Round
pub mod Run
