-- ===== src/Reports.antt =====
-- The artefacts of reports (src/gapforge/reports/artifacts.py): reports that stay, a pointer to the
-- latest one, and its copy, each put in place by an atomic replacement.
pub mod Store
pub mod Publish
mod Reading
pub mod Crashes
pub mod Recovery
pub mod Latest
pub mod Persisted
mod Examples
