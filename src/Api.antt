-- ===== src/Api.antt =====
-- scripts/check-api-docs.py: the documentation of the public declarations.
pub mod Comments
pub mod Automaton
pub mod Outside
pub mod Protections
pub mod Scopes
pub mod Entries
pub mod Inventory
pub mod Declared
pub mod Surface
pub mod Check
pub mod Verdict
mod Tests
