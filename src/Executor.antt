-- ===== src/Executor.antt =====
-- core/executor.py: the execution of an authorized command and the evidence that it records.
mod Defs
mod Validate
mod Capture
mod Output
mod Sandbox
mod Execute
pub mod Recorded
pub mod Once
pub mod Handover
pub mod Bounds
pub mod Whole
unfoldable pub use Defs.*
unfoldable pub use Validate.*
unfoldable pub use Capture.*
unfoldable pub use Output.*
unfoldable pub use Sandbox.*
unfoldable pub use Execute.*
