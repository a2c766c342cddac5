-- ===== src/Tests.antt =====
-- Runs of the modelled code at fixed inputs, and instances of the theorems.
pub mod Data
pub mod Prefixes
pub mod Trees
pub mod Addresses
pub mod Queues
pub mod Paths
pub mod Filters
pub mod Readers
