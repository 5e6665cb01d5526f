-- ===== src/PerfGate.antt =====
-- tools/perf/perf_gate.py: the paired measurement of two revisions and the report on it.
pub mod Floats
pub mod Campaign
pub mod Report
pub mod Laws
