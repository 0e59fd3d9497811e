-- ===== src/Collect.antt =====
-- Bounded network access: JSON of the collectors (src/gapforge/collectors/base.py) and static pages
-- (src/gapforge/security/static_fetch.py).
pub mod Body
pub mod Request
pub mod Requests
pub mod Fetch
pub mod Fetches
pub mod Snapshots
mod Examples
