-- ===== src/Queue/Repository.antt =====
-- `DurableQueue` (src/gapforge/queue/repository.py). Each method runs in one transaction: it takes
-- the tables and returns them changed, or raises, and then nothing is committed. The clock is the
-- argument `now`. The rows that other transactions hold, which `skip_locked` passes over, are the
-- parameters `task_locked` and `run_locked`.
mod Claim
mod Writes
unfoldable pub use Claim.*
unfoldable pub use Writes.*
