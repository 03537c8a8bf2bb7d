-- ===== src/Objects.antt =====
-- The API objects that the controllers read and write: the fields of the provider's own types
-- (api/v1beta2), and of the Kubernetes, Cluster API and Tinkerbell types those fields of which the
-- controllers touch. Message texts are left out.
mod Meta
mod Tinkerbell
mod Provider
mod Claim
unfoldable pub use Meta.*
pub use Tinkerbell.*
pub use Provider.*
pub use Claim.*
