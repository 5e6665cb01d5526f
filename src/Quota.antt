-- ===== src/Quota.antt =====
-- tests/farm/quota_model.py: the bounded model of the producer quota arithmetic.
pub mod Model
pub mod Explore
pub mod Canonical
pub mod Invariant
pub mod Moves
pub mod Safety
pub mod Search
