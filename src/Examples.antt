-- ===== src/Examples.antt =====
-- The theorems at concrete inputs.
pub mod Libraries
pub mod Fixtures
mod Ingresses
mod Services
mod Exports
mod Locations
mod Policies
mod Lookups
mod Watches
mod Fakes
mod Routes
mod Processes
mod Settling
