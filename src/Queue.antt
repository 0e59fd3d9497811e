-- ===== src/Queue.antt =====
-- The durable queue (src/gapforge/queue): tables, queue operations, run control, provider calls.
pub mod Model
pub mod Retry
pub mod Repository
pub mod Control
pub mod ProviderCalls
pub mod Expiry
pub mod Candidates
pub mod Claiming
pub mod Moves
pub mod RunMoves
pub mod Ownership
pub mod Written
pub mod Writing
pub mod TaskMoves
pub mod Steps
pub mod Keys
pub mod History
pub mod OneRunning
pub mod Admitting
pub mod Budgets
pub mod Closing
pub mod Enqueuing
mod Examples
pub mod CallBound
pub mod Retrying
