-- ===== src/Chat.antt =====
-- apps/web/src/lib/chatHelpers.ts
pub mod Sanitize
pub mod Prune
pub mod History
pub mod Provider
