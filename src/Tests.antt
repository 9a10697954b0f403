-- ===== src/Tests.antt =====
-- The theorems on concrete inputs.
pub mod Gate
pub mod Page
pub mod Service
pub mod Sandbox
pub mod Policy
pub mod Filter
pub mod Kernel
pub mod Process
pub mod Jails
pub mod Chain
