-- ===== src/Worker.antt =====
-- The worker (src/gapforge/worker/runtime.py): the limits on a task's result, the registry of
-- handlers, and one turn of the loop that claims a task and reports what its handler made of it.
pub mod Payload
pub mod Accepting
pub mod Runtime
pub mod Turns
pub mod Losing
mod Examples
