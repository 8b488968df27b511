-- ===== src/Api/Request.antt =====
-- apps/web/src/lib/api/chat.ts, `buildChatRequest`, and what api/responses.ts makes of its result.
pub mod Messages
pub mod Items
pub mod Fence
pub mod Answered
pub mod Body
pub mod Greedy
