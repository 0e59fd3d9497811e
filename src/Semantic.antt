-- ===== src/Semantic.antt =====
-- The audited semantic reasoner (src/gapforge/integration/semantic.py): admission of a provider
-- call, its audit, its replay, and what is accepted of a provider's result.
pub mod Model
pub mod Admission
pub mod Audit
pub mod Boundary
pub mod Calls
pub mod Reconciled
pub mod Granting
pub mod Decisions
pub mod Losing
pub mod Transactions
pub mod Once
pub mod Parallel
pub mod Replays
pub mod References
pub mod Accepted
pub mod Attempts
pub mod Resumed
mod Examples
