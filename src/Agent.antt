-- ===== src/Agent.antt =====
-- agent/mod.rs and the lifecycle of run/mod.rs: an agent, its runs and the operations on them.
pub mod Events
pub mod State
pub mod Run
pub mod Start
pub mod Control
pub mod Busy
pub mod MessageIds
pub mod Steps
