-- ===== src/Api/ChatStream.antt =====
-- apps/web/src/lib/api/chat.ts: `streamChat`.
pub mod Think
pub mod Calls
pub mod Stream
pub mod Tags
pub mod Segments
pub mod Tidy
pub mod Shown
pub mod Kept
