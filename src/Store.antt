-- ===== src/Store.antt =====
-- core/store.py: canonical task records, their checks, and the operations of `TaskStore`.
mod Defs
mod Checks
mod Operations
pub mod Numbering
pub mod Records
pub mod History
pub mod Commits
pub mod Progress
pub mod Traces
unfoldable pub use Defs.*
unfoldable pub use Checks.*
unfoldable pub use Operations.*
