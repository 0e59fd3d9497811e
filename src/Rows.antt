-- ===== src/Rows.antt =====
-- A database table as a list of rows, each with its primary key, and what holds of a lookup after
-- an update. SQLAlchemy writes a changed object back as an UPDATE by primary key.
mod Best
mod Keyed
pub use Best.*
pub use Keyed.*
