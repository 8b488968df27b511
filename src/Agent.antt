-- ===== src/Agent.antt =====
-- apps/web/src/lib/agentLoop.ts: the agent loop that the chat, the subagents and the workers share.
pub mod Compact
pub mod Dispatch
pub mod Turn
pub mod Humanize
pub mod Loop
