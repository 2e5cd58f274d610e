-- ===== src/Gateway.antt =====
-- core/gateway.py: capabilities, policy, scoped approvals, and the authorization of a command.
mod Defs
mod Checks
mod Authorize
pub mod Rules
pub mod Sound
pub mod Complete
unfoldable pub use Defs.*
unfoldable pub use Checks.*
unfoldable pub use Authorize.*
