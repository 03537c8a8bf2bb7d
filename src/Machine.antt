-- ===== src/Machine.antt =====
-- The machine controller: controller/machine.
pub mod Interfaces
pub mod Reservation
pub mod Claims
pub mod Ipam
pub mod Ownership
pub mod Selection
pub mod Bmc
pub mod Recovery
pub mod Template
pub mod Tasks
pub mod Workflow
pub mod Reconcile
pub mod Deletion
pub mod Controller
pub mod Mappers
