-- ===== src/Service.antt =====
-- core/task_service.py: the operations of a task, over the store, the gateway, the executor and the
-- verifier.
mod Approvals
mod Declarations
mod Places
mod Runs
mod Requests
mod Tasks
pub mod Payloads
pub mod Declared
pub mod Granted
pub mod Grantable
pub mod Whole
pub mod Planned
pub mod Started
pub mod Amended
unfoldable pub use Approvals.*
unfoldable pub use Declarations.*
unfoldable pub use Places.*
unfoldable pub use Runs.*
unfoldable pub use Requests.*
unfoldable pub use Tasks.*
