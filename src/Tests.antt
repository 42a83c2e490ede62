-- ===== src/Tests.antt =====
-- The theorems applied to concrete inputs, part by part.
mod Agent
mod Breaker
mod Cancellation
mod Registry
mod Queue
mod Stream
mod Retry
mod Tool
mod Turn
mod Json
mod Terminal
mod Scheduler
mod State
mod Compaction
