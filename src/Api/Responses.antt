-- ===== src/Api/Responses.antt =====
-- apps/web/src/lib/api/responses.ts.
pub mod Reducer
pub mod Stream
pub mod Reports
pub mod Ends
