-- ===== src/Kube.antt =====
-- What the controllers run on: their errors, the calls they send to the API servers, the state of
-- one reconcile and the actions over it.
mod Errors
mod Environment
mod Actions
pub mod Sends
pub mod Ensures
pub mod Traces
pub mod Patched
pub use Errors.*
unfoldable pub use Environment.*
unfoldable pub use Actions.*
