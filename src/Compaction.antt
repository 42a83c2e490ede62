-- ===== src/Compaction.antt =====
-- crates/tea-core/src/compaction.rs and the split of crates/tea-core/src/run/mod.rs: `Policy` is the
-- opt-in configuration, `Validate` the check of a replacement transcript, `Split` the choice of the
-- retained suffix.
pub mod Policy
pub mod Validate
pub mod Split
