-- ===== src/Stages.antt =====
-- The stages of the evidence pipeline (src/gapforge/integration/evidence_store.py): the budget that a
-- stage reserves in the checkpoint of its task, and what is read back of a stage.
pub mod Reserve
pub mod Charging
pub mod Reserved
pub mod Commit
pub mod Histories
pub mod Loading
mod Examples
