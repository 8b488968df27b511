-- ===== src/Tests.antt =====
-- Runs on concrete inputs, and the theorems applied to them.
mod Chat
mod Tabs
mod Agent
mod Coder
mod CoderUndo
mod Checkpoints
mod Observations
mod Api
mod Request
mod GitStatus
