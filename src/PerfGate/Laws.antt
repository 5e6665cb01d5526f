-- ===== src/PerfGate/Laws.antt =====
-- What the report of tools/perf/perf_gate.py says of the measurements.
pub mod Pairs
pub mod Exit
mod Tests
