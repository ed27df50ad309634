-- ===== src/Examples.antt =====
-- The theorems at concrete inputs.
pub mod World
pub mod Provisioning
pub mod Removing
pub mod Machines
pub mod Admission
