-- ===== src/Registry/Sources.antt =====
-- The data sources of the registry: `apply_data_source` and `get_data_source` of
-- sdk/python/feast/infra/registry/registry.py, which look for different keys.
use feast.Base.{string_eq}
use feast.Proto.{Proto}
use feast.DataSource
use feast.DataSource.{DataSource, DataSourceProto}
use feast.Registry.State.{State}
use feast.Registry.Settled.{Settled}
