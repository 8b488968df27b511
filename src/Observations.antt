-- ===== src/Observations.antt =====
-- apps/web/src/lib/observationPack.ts: large tool results, their excerpts and their pages.
pub mod Pages
pub mod Excerpt
pub mod Pack
