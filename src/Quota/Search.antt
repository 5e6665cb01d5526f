-- ===== src/Quota/Search.antt =====
-- tests/farm/quota_model.py, `explore`: the search ends, reports a counterexample of the strict
-- protocol never, and one of the automatic protocol for what it is.
pub mod Rules
pub mod Strict
pub mod Total
mod Dict
pub mod Complete
pub mod Trace
pub mod Reachable
mod Tests
