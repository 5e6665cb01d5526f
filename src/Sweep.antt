-- ===== src/Sweep.antt =====
-- tools/perf/offccd_sweep.py: the cells of the off-CCD suites.
pub mod Cells
pub mod Suites
pub mod Plan
pub mod Distinct
pub mod Mirror
pub mod Whole
pub mod Merge
pub mod Agree
pub mod Groups
pub mod Counted
pub mod Kept
pub mod Noise
pub mod Derived
pub mod Controls
pub mod Steps
pub mod Summary
pub mod Totals
pub mod Small
pub mod Rounds
pub mod Attempts
pub mod Skips
mod Runs
mod Tests
