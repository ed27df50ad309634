-- ===== src/Api.antt =====
-- The objects of api/v1beta2: specs, statuses, conditions, tags.
pub mod Cluster
pub mod Machine
pub mod Conditions
