-- ===== src/Runner.antt =====
-- tools/perf/run_performance_md.py and tools/perf/llc_split.py: the benchmark cells, how often each
-- is run and how threads are laid out over groups of CPUs.
pub mod Words
pub mod Cases
pub mod Farms
pub mod Actors
pub mod Select
pub mod Reads
pub mod Ready
pub mod Texts
pub mod Measure
pub mod Cached
pub mod Split
pub mod Layout
pub mod Threads
pub mod Confined
mod Tests
