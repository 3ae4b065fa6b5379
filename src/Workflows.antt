-- ===== src/Workflows.antt =====
-- The pages of a Workflow: its tabs, its Versions, publishing it and the state of its Draft.
pub mod Tabs
pub mod Leaving
pub mod Drafts
pub mod Versions
pub mod Publish
