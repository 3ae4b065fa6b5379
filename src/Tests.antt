-- ===== src/Tests.antt =====
-- The theorems at concrete inputs, and runs of the modelled code on inputs that the source's own
-- tests use.
mod Batch
mod Run
mod Lock
mod Pages
mod Cells
mod Headers
mod Files
mod Documents
mod Times
mod Visits
