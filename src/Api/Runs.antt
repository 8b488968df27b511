-- ===== src/Api/Runs.antt =====
-- apps/web/src/lib/agentRuns.ts: the client of an agent run on the server.
pub mod Frames
pub mod Attach
pub mod Order
pub mod Once
