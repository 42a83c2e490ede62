-- ===== src/Turn.antt =====
-- One turn of a run: the stream of a response, and the execution of the tool calls in it
-- (crates/tea-core/src/run/).
pub mod Host
pub mod Exec
pub mod Results
pub mod Calls
pub mod Batch
pub mod Response
pub mod Compact
