-- ===== src/Scripts.antt =====
-- scripts/: the line coverage report of the browser tests (js_coverage_report.py).
pub mod Coverage
pub mod Innermost
pub mod Lines
pub mod Spans
pub mod Counting
pub mod Export
pub mod Exported
pub mod Seed
pub mod Seeding
pub mod Report
pub mod Reset
pub mod Purging
pub mod Merging
mod Tests
