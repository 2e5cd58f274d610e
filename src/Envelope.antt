-- ===== src/Envelope.antt =====
-- core/envelope.py: the Task Envelope, what its constructors check, and its amendment. Every check
-- raises `EnvelopeInvariantError`; the messages are not modelled. Python's integers are ℤ, but for
-- `revision`, which the constructor requires to be positive. What the type annotations say of a
-- field (`isinstance`) holds by the fields' types.
mod Defs
mod Checks
mod Amend
pub mod Monotone
unfoldable pub use Defs.*
unfoldable pub use Checks.*
unfoldable pub use Amend.*
