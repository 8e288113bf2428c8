-- ===== src/Export.antt =====
-- The export of the results (result_exporter.h, result_exporter.cpp) and a reader of what it writes.
pub mod Json
pub mod SimResult
pub mod Host
pub mod Import
pub mod RoundTrip
pub mod Totals
pub mod Values
pub mod Samples
mod Tests
