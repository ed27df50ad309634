-- ===== src/Cluster.antt =====
-- internal/controller/cloudscalecluster_controller.go: how the parts of a cluster are put together.
pub mod Endpoint
pub mod Readiness
pub mod Normal
pub mod Deletion
pub mod Released
pub mod Endpoints
pub mod Ready
pub mod Conditions
