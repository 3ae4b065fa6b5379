-- ===== src/Batches.antt =====
-- The Batch page: the live snapshot that events keep up to date.
pub mod Events
pub mod Attempts
pub mod Rows
pub mod Again
pub mod Stats
pub mod Presentation
pub mod Progress
pub mod Output
pub mod Drift
pub mod Banner
pub mod Tables
pub mod Creation
pub mod Draft
