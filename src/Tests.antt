-- ===== src/Tests.antt =====
-- The theorems on the definitions of feature views, services and types, at small values.
use feast.Base.{
  ℕ, String, true, ◌≡◌, ◌≢◌, refl, none, some, List, [], ◌∷◌, All, any, ok, string_eq, bool_eq,
  nat_eq, option_eq, ◌↔◌, ◌≤◌, ◌==◌,
}
use feast.Base.Dict.{Dict, lookup, dict_eq}
use feast.Proto.{set_project}
use feast.Types.{
  ValueType, FeastType, primitive, array, PrimitiveFeastType, to_value_type, from_value_type, value,
  value_type_eq, feast_type_eq,
}
use feast.Types.RoundTrip.{to_value_type-from_value_type, from_value_type-to_value_type}
use feast.Field
use feast.Field.{Field, FieldProto}
use feast.Projection
use feast.Projection.{FeatureViewProjectionProto, from_proto-to_proto_projection, name_to_use}
use feast.DataSource.{batch}
use feast.Entity
use feast.Entity.{Entity, from_proto-to_proto_entity}
use feast.RequestSource
use feast.RequestSource.{
  RequestSource, RequestSourceProto, request_source_eq, request_source_eq-append,
  from_proto-to_proto_request,
}
use feast.RequestFeatureView
use feast.RequestFeatureView.{
  RequestFeatureView, make_request_feature_view, from_proto-to_proto_request_view,
}
use feast.Aggregation
use feast.Aggregation.{make_aggregation, from_proto-to_proto_aggregation}
use feast.BaseFeatureView.{set_projection, has_feature, set_projection-ok}
use feast.FeatureView.{FeatureView, make_feature_view, all_distinct, most_recent_end_time}
use feast.FeatureView.Construction.{Divided, make_feature_view-ok, most_recent_end_time-greatest}
use feast.FeatureService
use feast.FeatureService.{FeatureService, FeatureServiceProto, Grouping}
use feast.Samples.{driver, trips, rate, rate_projection, stats, rides}

int64_list-ne-null : ValueType.int64_list ≢ ValueType.null
int64_list-ne-null h = cc

to_value_type-from_value_type_example :
    (f : FeastType) × (from_value_type ValueType.int64_list ≡ ok f)
    × (to_value_type f ≡ ok ValueType.int64_list)
unfolding value_type_eq
to_value_type-from_value_type_example =
    to_value_type-from_value_type ValueType.int64_list int64_list-ne-null

from_value_type-to_value_type_example :
    from_value_type ValueType.int64_list ≡ ok (array (primitive PrimitiveFeastType.int64))
unfolding to_value_type
from_value_type-to_value_type_example =
    from_value_type-to_value_type (array (primitive PrimitiveFeastType.int64)) ValueType.int64_list
      refl

from_proto-to_proto_entity_example :
    Entity.from_proto (set_project rides (Entity.to_proto driver)) ≡ ok driver
from_proto-to_proto_entity_example = from_proto-to_proto_entity driver rides

abbrev rate_proto : FieldProto
rate_proto = record { name = "rate"; value_type = 6; description = ""; tags = [] }

abbrev rate_projection_proto : FeatureViewProjectionProto
rate_projection_proto = record {
  feature_view_name = "stats";
  feature_view_name_alias = "";
  feature_columns = rate_proto ∷ [];
  join_key_map = [];
}

rate_projection-written : Projection.to_proto rate_projection ≡ ok rate_projection_proto
unfolding Projection.to_proto Field.to_proto to_value_type value Projection.or_else
rate_projection-written = refl

from_proto-to_proto_projection_example :
    (Projection.from_proto rate_projection_proto ≡ ok (Projection.reloaded rate_projection))
    × (name_to_use (Projection.reloaded rate_projection) ≡ name_to_use rate_projection)
from_proto-to_proto_projection_example =
    from_proto-to_proto_projection rate_projection rate_projection_proto rate_projection-written

abbrev now_source : RequestSource
now_source = record { name = "now"; schema = rate ∷ []; description = ""; tags = []; owner = "" }

abbrev now_proto : RequestSourceProto
now_proto = record {
  name = "now";
  schema = rate_proto ∷ [];
  description = "";
  tags = [];
  owner = "";
}

now_source-written : RequestSource.to_proto now_source ≡ ok now_proto
unfolding RequestSource.to_proto Field.to_proto to_value_type value
now_source-written = refl

now_source-same : request_source_eq now_source now_source ≡ true
unfolding request_source_eq string_eq feast_type_eq Field.field_eq dict_eq
now_source-same = refl

request_source_eq-append_example :
    request_source_eq now_source (record now_source { schema = rate ∷ rate ∷ [] }) ≡ true
request_source_eq-append_example = request_source_eq-append now_source (rate ∷ []) now_source-same

from_proto-to_proto_request_example : RequestSource.from_proto now_proto ≡ ok now_source
from_proto-to_proto_request_example =
    from_proto-to_proto_request now_source now_proto now_source-written

from_proto-to_proto_aggregation_example :
    Aggregation.from_proto (Aggregation.to_proto (make_aggregation "rate" "sum" (some 60) none))
    ≡ make_aggregation "rate" "sum" (some 60) none
from_proto-to_proto_aggregation_example = from_proto-to_proto_aggregation "rate" "sum" 60 none

set_projection-ok_example : (set_projection rate_projection (stats.base) ≡ ok (stats.base)) ↔ (
    (rate_projection.name ≡ (stats.base).name)
    × All (λ g. has_feature (stats.base).features g ≡ true) (rate_projection.features)
    × (stats.base ≡ record (stats.base) { projection = rate_projection }))
set_projection-ok_example = set_projection-ok rate_projection (stats.base) (stats.base)

abbrev now_view : RequestFeatureView
now_view = record { base = record (stats.base) { name = "now" }; request_source = now_source }

abbrev now_view_proto : RequestFeatureView.RequestFeatureViewProto
now_view_proto = record {
  name = "now";
  project = "";
  body = record { request_data_source = now_proto; description = ""; tags = []; owner = "" };
}

now_view-written : RequestFeatureView.to_proto now_view ≡ ok now_view_proto
unfolding RequestFeatureView.to_proto RequestSource.to_proto Field.to_proto to_value_type value
now_view-written = refl

from_proto-to_proto_request_view_example :
    RequestFeatureView.from_proto (set_project rides now_view_proto)
    ≡ ok (make_request_feature_view "now" now_source "" [] "")
from_proto-to_proto_request_view_example =
    from_proto-to_proto_request_view now_view now_view_proto rides now_view-written

-- A view with a column that is the join key of its entity, and one feature.
abbrev driver_id : Field
driver_id = record {
  name = "driver_id";
  dtype = primitive PrimitiveFeastType.int64;
  description = "";
  tags = [];
}

stats-made :
    (v : FeatureView) × (make_feature_view "stats"
        (batch trips)
        (driver_id ∷ rate ∷ [])
        (driver ∷ [])
        none
        true
        ""
        []
        ""
      ≡ ok v)
unfolding make_feature_view string_eq value_type_eq feast_type_eq from_value_type
stats-made = (_, refl)

make_feature_view-ok_example :
    let v = stats-made.0 in
    (v.name ≡ "stats")
    × (v.entities ≡ "driver" ∷ [])
    × Divided (driver ∷ []) (driver_id ∷ rate ∷ []) v.entity_columns v.features
    × (all_distinct ("driver_id" ∷ []) ≡ true)
    × All (λ (f : Field). lookup f.name v.batch_source.field_mapping ≡ none) (driver_id ∷ rate ∷ [])
    × (v.materialization_intervals ≡ [])
make_feature_view-ok_example =
    make_feature_view-ok "stats" (batch trips) (driver_id ∷ rate ∷ []) (driver ∷ []) none true "" []
      "" stats-made.0 stats-made.1

abbrev materialized_stats : FeatureView
materialized_stats = record stats { materialization_intervals = (10, 20) ∷ (30, 40) ∷ (0, 5) ∷ [] }

stats-end : most_recent_end_time materialized_stats ≡ some 40
unfolding most_recent_end_time
stats-end = refl

most_recent_end_time-greatest_example :
    All (λ i. i.1 ≤ 40) materialized_stats.materialization_intervals
    × (any (λ (i : ℕ × ℕ). i.1 == 40) materialized_stats.materialization_intervals ≡ true)
most_recent_end_time-greatest_example =
    most_recent_end_time-greatest materialized_stats 40 stats-end

abbrev rates_service : FeatureService
rates_service = record {
  name = "rates";
  feature_groupings = record { name = "stats"; projection = rate_projection } ∷ [];
  feature_view_projections = rate_projection ∷ [];
  description = "";
  tags = [];
  owner = "";
  created_timestamp = none;
  last_updated_timestamp = none;
  logging_config = none;
}

abbrev rates_proto : FeatureServiceProto
rates_proto = record {
  name = "rates";
  project = "";
  body = record {
    features = rate_projection_proto ∷ [];
    description = "";
    tags = [];
    owner = "";
    created_timestamp = none;
    last_updated_timestamp = none;
    logging_config = none;
  };
}

abbrev wanting : Grouping
wanting = record {
  name = "stats";
  projection = record rate_projection { desired_features = "rate" ∷ []; features = [] };
}

abbrev views : Dict String (List Field)
views = ("stats", rate ∷ driver_id ∷ []) ∷ []
