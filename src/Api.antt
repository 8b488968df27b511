-- ===== src/Api.antt =====
-- apps/web/src/lib/api and agentRuns.ts: the streams of the engine and of an agent run, the
-- requests that start them, and what is built on a finished stream.
pub mod Splitter
pub mod Drain
pub mod ReadLoop
pub mod Values
pub mod Receipt
pub mod Responses
pub mod ChatStream
pub mod Transport
pub mod Runs
pub mod Request
