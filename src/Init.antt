-- ===== src/Init.antt =====
-- init/transaction.py: the repository transaction, which stages, journals, commits and restores a set
-- of reviewed file changes.
mod Io
mod Journal
mod Transaction
pub mod Hoare
pub mod Visible
pub mod Restoring
pub mod Staging
pub mod Committing
pub mod Validating
pub mod Applying
pub mod Atomic
unfoldable pub use Io.*
unfoldable pub use Journal.*
unfoldable pub use Transaction.*
