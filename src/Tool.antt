-- ===== src/Tool.antt =====
-- crates/tea-core/src/tool.rs: tool failures, the model-facing projection of results, and the
-- registry. `Failure` has the types, the other children one operation each.
pub mod Failure
pub mod Truncate
pub mod Projection
pub mod Breaker
pub mod Registry
