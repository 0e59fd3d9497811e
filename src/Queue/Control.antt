-- ===== src/Queue/Control.antt =====
-- `RunController` (src/gapforge/queue/control.py). What the library pydantic and the module json do
-- to a stored value is the parameter `Codec`.
mod Finalize
mod Admit
unfoldable pub use Finalize.*
unfoldable pub use Admit.*
