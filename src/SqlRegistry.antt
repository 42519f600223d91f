-- ===== src/SqlRegistry.antt =====
-- The registry in a database: `SqlRegistry` of sdk/python/feast/infra/registry/sql.py.
pub mod Tables
pub mod State
pub mod Objects
pub mod Classes
pub mod Methods
pub mod Lists
pub mod Cache
pub mod Lookups
pub mod Calls
pub mod Metadata
pub mod Rows
pub mod Writes
pub mod Agreement
pub mod Reads
pub mod Deletions
pub mod Steps
pub mod ListTable
pub mod Refinement
mod Tests
