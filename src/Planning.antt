-- ===== src/Planning.antt =====
-- Query planning (src/gapforge/research/query_planning.py) and the rounds of further research
-- (src/gapforge/analysis/critic.py).
pub mod Windows
pub mod Strata
pub mod Allocation
pub mod Shares
mod Examples
