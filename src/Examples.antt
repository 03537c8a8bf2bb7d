-- ===== src/Examples.antt =====
-- Concrete objects and servers, and each theorem applied to them.
mod World
mod Ownership
mod Placement
mod Lifecycle
mod Entry
mod Admission
mod Clusters
mod Watches
mod Versions
mod TaskServer
mod Tasks
mod Caches
mod Selectors
mod Provisioning
mod Mappers
mod Startup
mod Builds
