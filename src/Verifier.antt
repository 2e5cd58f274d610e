-- ===== src/Verifier.antt =====
-- core/verifier.py: the evidence checks and the completion gate.
mod Defs
mod Checks
mod Acceptance
mod Verify
pub mod Issues
pub mod Evidence
pub mod Authorized
pub mod Required
pub mod Gate
pub mod Outcomes
unfoldable pub use Defs.*
unfoldable pub use Checks.*
unfoldable pub use Acceptance.*
unfoldable pub use Verify.*
