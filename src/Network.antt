-- ===== src/Network.antt =====
-- internal/controller/cloudscalecluster_network.go: the networks and subnets of a cluster.
pub mod Status
pub mod Adopted
pub mod Managed
pub mod Provision
pub mod Removal
pub mod Condition
pub mod Removed
pub mod Deleted
pub mod Entries
pub mod Written
pub mod Discovered
pub mod Ready
