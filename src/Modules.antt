-- ===== src/Modules.antt =====
-- modules/: manifests and activation decisions (model.py), the registry (registry.py) and the module
-- lock with its trials (manager.py).
mod Defs
mod Registry
mod Activation
mod Lock
mod Manager
pub mod Updates
pub mod Trials
pub mod Lifecycle
pub mod Lookups
pub mod Rollback
pub mod Planned
pub mod Budget
unfoldable pub use Defs.*
unfoldable pub use Registry.*
unfoldable pub use Activation.*
unfoldable pub use Lock.*
unfoldable pub use Manager.*
