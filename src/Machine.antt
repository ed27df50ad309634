-- ===== src/Machine.antt =====
-- The controller of a CloudscaleMachine (internal/controller/cloudscalemachine_controller.go).
pub mod Scope
pub mod Interfaces
pub mod Update
pub mod Server
pub mod Group
pub mod Grouped
pub mod Normal
pub mod Deletion
pub mod Conditions
pub mod Kept
pub mod Latch
pub mod Recorded
pub mod Requests
pub mod Released
pub mod Orders
pub mod Created
