-- ===== src/Webhook.antt =====
-- The admission webhooks (internal/webhook/v1beta2).
pub mod Field
pub mod Regions
pub mod Networks
pub mod Routers
pub mod LoadBalancers
pub mod FloatingIps
pub mod Clusters
pub mod Reports
pub mod Lookups
pub mod NetworkRules
pub mod NetworkLists
pub mod RouterRules
pub mod RouterLists
pub mod Combinations
pub mod Accepted
pub mod Same
pub mod Kept
pub mod Preserved
pub mod Unchanged
pub mod Defaults
pub mod Warnings
pub mod Served
pub mod Machines
pub mod Tags
pub mod MachineUpdates
