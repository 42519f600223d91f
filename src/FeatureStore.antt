-- ===== src/FeatureStore.antt =====
-- The online retrieval of features and the checks of sdk/python/feast/feature_store.py.
pub mod Entities
pub mod Online
pub mod References
mod Tests
