-- ===== src/Runs.antt =====
-- The Run page: the live snapshot that events keep up to date, and what the page shows of it.
pub mod Cockpit
pub mod Events
pub mod Dispatch
pub mod Logs
pub mod Steps
pub mod Control
pub mod Pane
pub mod Watching
pub mod Presentation
pub mod Banner
pub mod Rail
pub mod Bands
pub mod Expansion
pub mod Timeline
pub mod Output
pub mod Listing
pub mod Lock
