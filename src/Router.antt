-- ===== src/Router.antt =====
-- internal/controller/cloudscalecluster_router.go: the routers of a cluster and their interfaces.
pub mod Status
pub mod Interfaces
pub mod Provision
pub mod Removal
pub mod Detached
pub mod Deleted
pub mod Requests
pub mod Recorded
pub mod Delays
