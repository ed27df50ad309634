-- ===== src/FloatingIp.antt =====
-- internal/controller/cloudscalecluster_floatingip.go: the floating IP of a cluster.
pub mod Target
pub mod Provision
pub mod Removal
pub mod Cleared
