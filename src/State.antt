-- ===== src/State.antt =====
-- crates/tea-core/src/state/: identifiers, messages, usage accounting and the lifecycle state.
pub mod Types
pub mod Equality
pub mod Decimal
pub mod Accounting
