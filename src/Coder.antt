-- ===== src/Coder.antt =====
-- apps/web/src/lib/coderTools.ts and coderStore.ts: what the coder may run, and what it stores.
pub mod Commands
pub mod Approved
pub mod Tools
pub mod Store
