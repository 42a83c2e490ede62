-- ===== src/Lib.antt =====
-- A verification library for the agent core of this repository (crates/tea-core), for the stream
-- validator, the cancellation scope and the JSON values of crates/tea-protocol, and for the frames and
-- the editor command of the terminal agent (crates/tea-agent).
--
-- An agent holds a transcript, two message queues and the accounting of its model turns. A run asks a
-- provider for a response, checks and consumes the stream of it, executes the tool calls, feeds the
-- results back, and compacts the transcript when it grows too large.
--
-- Files, each with the files of theorems in the directory of its name:
--   Queue       crates/tea-core/src/queue.rs. `push`, `pop`, `drain`, `clear` by their names.
--   Stream      crates/tea-protocol/src/model_stream.rs. `accept` is `ModelStream::accept`.
--   Retry       crates/tea-core/src/provider/retry.rs. `delay_before_retry`, `retry_with_backoff` and
--               `wait_with_cancellation`.
--   Tool        crates/tea-core/src/tool.rs. Failure: the failure types and policies; Truncate:
--               `truncate_middle`; Projection: `project_tool_result_as_text`; Breaker:
--               `observe_tool_failure` of crates/tea-core/src/run/tool_execution.rs; Registry: `ToolRegistry`.
--   State       crates/tea-core/src/state/. Types: identifiers, messages and phases; Accounting:
--               `Usage::merge` and `ModelAccountingSnapshot::record`; Decimal: `decimal_add`; Equality: the
--               derived equality of messages.
--   Compaction  Policy and Validate: crates/tea-core/src/compaction.rs; Split:
--               `automatic_compaction_split` of crates/tea-core/src/run/mod.rs.
--   Cancellation  crates/tea-protocol/src/cancellation.rs: `wait_blocking` and `cancel_with_reason`
--               in the steps between which the other thread can run.
--   Agent       crates/tea-core/src/agent/mod.rs and the lifecycle of run/mod.rs. State: `AgentState`,
--               `RunState` and the store of runs; Events: event.rs; Run: the methods of `RunHandle`;
--               Start and Control: the methods of `Agent`; Busy and Steps: theorems on single calls and
--               on sequences of calls.
--   Turn        what a run does inside a turn. Host: the hooks and tools of the host; Exec: the state of a
--               turn and its monad; Calls and Batch: crates/tea-core/src/run/tool_execution.rs, with
--               `execute_tool_calls_sequential`; Response: `consume_assistant_stream` and Compact:
--               `maybe_automatic_compaction` of crates/tea-core/src/run/mod.rs.
--   Json        crates/tea-protocol/src/json.rs: `JsonValue` and its conversions.
--   Grid        crates/tea-agent/src/grid.rs: `Grid` and `diff`.
--   EditorCommand  crates/tea-agent/src/editor.rs: `parse_editor`.
--   Scheduler   crates/tea-core/src/scheduler.rs: `ToolBatch` and `CompletionSet`.
--   Layout      crates/tea-agent/src/ui/frame_layout.rs: `plan_flow`.
--   Prelude     shared names, lists, texts, machine words, ordered sets and maps.
--   Tests       the theorems at concrete inputs.
--
-- Conventions. A method that takes `&mut self` is a function to the new state, with its result beside
-- it. A `String` is the list of its UTF-8 bytes. A word of the machine is a natural number, and
-- saturating or wrapping arithmetic is written out. `Result<(), E>` is an `Option E`. A `BTreeSet` or
-- `BTreeMap` over texts is a sorted list.
--
-- An agent and its runs are a `System`: the agent, and a store with a cell for every run that was ever
-- started. A handle is the index of its cell. Every public method is one step, as if the host called
-- them one after the other; `abort_first` and `abort_second` are the two critical sections of
-- `RunHandle::abort`, for the order in which another call comes between them.
--
-- Loops that count up or search are recursion on what is left: the bytes behind a position in Truncate,
-- the retries left in Retry, where `retry_loop` starts with `max_retries` and never needs more. The
-- observations of a waiting loop are a list, and the theorem on them assumes that the clock passes the
-- delay in it.
--
-- The future of a tool is the list of its polls, and a model stream the list of what it delivers; both
-- end, so that no fuel is needed. The hooks, tools and compactor of the host, the text codec of Miniserde
-- and the tests of the classes of characters are parameters. In Cancellation a thread's step ends at its
-- next access to what the threads share; a spurious wake-up of the condition variable is left out.
--
-- A host that is called may cancel or abort the run; that it settles the run from within a call is left
-- out.
--
-- Not modelled: the parallel execution of a batch and the drive loop of a run; the provider transports and
-- wire formats, the built-in tools, the rest of the terminal interface,
-- the Luau binding and trace sinks, which are I/O or call libraries outside the repository; JSON schema
-- validation; mutexes, wakers and futures as such.
pub mod Prelude
pub mod Queue
pub mod Stream
pub mod Retry
pub mod Tool
pub mod Turn
pub mod State
pub mod Compaction
pub mod Tests
pub mod Agent
pub mod Scheduler
pub mod Grid
pub mod Layout
pub mod Cancellation
pub mod Json
pub mod EditorCommand
