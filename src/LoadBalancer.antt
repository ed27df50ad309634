-- ===== src/LoadBalancer.antt =====
-- internal/controller/cloudscalecluster_loadbalancer.go: the load balancer of the control plane.
pub mod Subnets
pub mod Components
pub mod Members
pub mod Provision
pub mod Removal
pub mod Cleared
pub mod Wanted
pub mod Removing
