-- ===== src/Lib.antt =====
-- Feast, the feature store (Python, under sdk/python/feast): its registry and the objects that the registry
-- keeps. A Registry object caches one message, which a store holds as a file. Its methods fill the cache,
-- change the cached message, and commit it to the store; lookups read the message, cached or fetched. The
-- objects (entities, data sources, feature views of four classes, feature services, saved datasets) are built
-- and checked by their constructors, compared by `__eq__`, and written as protobuf messages and read back.
--
-- The parts, each with the code that it is about:
-- - Types: value_type.py and types.py. Enumerations are data types, with their names and numbers in tables.
-- - Field, Projection, Entity, Aggregation, DataSource, RequestSource: field.py, feature_view_projection.py,
--   entity.py, aggregation.py, data_source.py. `make_*` is a constructor, `*_eq` an `__eq__`, `to_proto` and
--   `from_proto` the methods of these names.
-- - BaseFeatureView, FeatureView, RequestFeatureView, StreamFeatureView, OnDemandFeatureView:
--   base_feature_view.py and the files named for the classes. A subclass's record holds its base's.
-- - FeatureService and FeatureService/Inference: feature_service.py.
-- - SavedDataset: saved_dataset.py. Infra: the messages of infra/infra_object.py.
-- - Diff: diff/property_diff.py. Diff/Infra: diff/infra_diff.py. Diff/Registry: `apply_diff_to_registry` of
--   diff/registry_diff.py, which calls the registry's methods. An infra diff is applied by calls of the
--   tables' `update` and `teardown`, which are recorded in order. Diff/Tagging: the comparison of the registry's
--   objects with those of a repository, in diff/registry_diff.py.
-- - Proto: what the messages share, a name and a project beside the rest.
-- - Registry: infra/registry/registry.py, proto_registry_utils.py and file.py. Registry/State has the message,
--   the state and the store; Registry/Cache the reading and preparing of the cache; Registry/Lookup `get_*` and
--   `list_*`; Registry/Writes and Registry/FeatureViews the methods that change the registry; Registry/Steps
--   sequences of calls. Registry/Valid and its children prove the invariant; Registry/Ends has the rules by
--   which the other files prove how a call ends.
-- - SqlRegistry: infra/registry/sql.py. SqlRegistry/Tables has the tables and the statements that the code asks
--   of the database library, a record of operations with a record of laws; SqlRegistry/Objects has
--   `_apply_object`, `_get_object`, `_delete_object` and `_list_objects`, SqlRegistry/Methods and
--   SqlRegistry/Lists the methods that use them, SqlRegistry/Cache the cached message and SqlRegistry/Lookups the
--   lookups that read it or the tables. SqlRegistry/Calls has sequences of calls, and the same calls on a map;
--   SqlRegistry/Rows, Writes, Reads and Deletions relate the rows of a table to the map, statement by statement,
--   for SqlRegistry/Refinement.
-- - FeatureStore: feature_store.py. FeatureStore/Entities has `_get_unique_entities` and `apply_list_mapping`,
--   FeatureStore/Online the reading of the online store and the response, FeatureStore/References the checks and
--   the grouping of references to features.
-- - KeyEncoding: infra/key_encoding_utils.py. Integers in two's complement are in Base/Bytes, UTF-8 in Base/Utf8.
-- - Base: Python's equality, lists, dicts, sorting and exceptions. Samples and the modules named Tests have
--   the values and runs on which the theorems are tried.
--
-- A method that changes the registry is a function from a state to its result, a value or an exception, and
-- the state after it; what was written before an exception stays written. Times and durations are counts of
-- microseconds. The clock and the random identifiers are sequences that the state counts through. A user's
-- function is its name and its code; the package dill, which writes and reads functions, is a parameter whose
-- one hypothesis is that what was written is read back. What the online store answers, the order of values and of
-- Python's sets, and `str.lower` are parameters too. All functions are total without fuel.
--
-- Not modelled: locks (calls are taken one after the other), the listing of repository contents,
-- transformations of data frames, historical retrieval and materialization, the stores of other kinds, type maps
-- of pandas values, the command line, servers and telemetry.
pub mod Base
pub mod Types
pub mod Field
pub mod Proto
pub mod Projection
pub mod DataSource
pub mod Entity
pub mod RequestSource
pub mod Function
pub mod Aggregation
pub mod BaseFeatureView
pub mod FeatureView
pub mod RequestFeatureView
pub mod SqlRegistry
pub mod StreamFeatureView
pub mod OnDemandFeatureView
pub mod FeatureService
pub mod Infra
pub mod KeyEncoding
pub mod Diff
pub mod SavedDataset
pub mod Registry
pub mod FeatureStore
pub mod Samples
mod Tests
