-- ===== src/Csv.antt =====
-- apps/web/components/value-grid/csv-import.ts: a CSV file becomes rows of the value grid.
pub mod Table
pub mod Import
pub mod RoundTrip
pub mod Sniff
pub mod Panels
