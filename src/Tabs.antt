-- ===== src/Tabs.antt =====
-- apps/web/src/components/editor/tabModel.ts, the hook `useFileTabs`: the editor's open tabs. The
-- state that React holds and the refs are one record; an event handler returns the new state and
-- the requests that it sends, and an answer to a request is an event of its own, so that all the
-- orders in which the answers can come in are runs of the model.
pub mod State
pub mod Disk
pub mod Git
pub mod Save
pub mod Actions
pub mod Workspace
pub mod Step
pub mod Valid
pub mod Edits
pub mod Cap
pub mod Late
pub mod Snapshots
