-- ===== src/Registry.antt =====
-- The registry of sdk/python/feast/infra/registry: its message and state, the cache, the reads and the
-- operations that change it.
pub mod State
pub mod Cache
pub mod Lookup
pub mod Writes
pub mod FeatureViews
pub mod Steps
pub mod Ends
pub mod Settled
pub mod Prepared
pub mod Written
pub mod Keys
pub mod Reload
pub mod Entities
pub mod Conflicts
pub mod Views
pub mod Sources
mod Tests
mod ViewTests
pub mod Valid
