-- ===== src/Registry/ViewTests.antt =====
-- Runs of `apply_feature_view` on a small registry, and the theorems on it at these values.
use feast.Base.{
  true, false, ◌≡◌, refl, Option, none, some, [], ◌∷◌, Result, ok, err,
  conflicting_feature_view_names, string_eq, any, find_first, bool_eq, nat_eq, option_eq,
}
use feast.Proto.{matches, has_name, set_project}
use feast.Proto.Distinct.{find}
use feast.BaseFeatureView.{stamp}
use feast.FeatureView
use feast.FeatureView.{FeatureView, feature_view_eq}
use feast.FeatureView.Messages as FeatureViewMessages
use feast.FeatureView.Messages.{FeatureViewProto}
use feast.StreamFeatureView.Messages.{StreamFeatureViewProto}
use feast.DataSource
use feast.Base.Dict.{dict_eq}
use feast.Projection.{projection_eq}
use feast.Field
use feast.Types.{to_value_type, value, value_type_of, from_value_type, feast_type_eq, value_type_eq}
use feast.Samples.{env, stats, stored, holding, rides, rides-named}
use feast.Registry.State.{RegistryProto, State}
use feast.Registry.Cache.{get_project_metadata}
use feast.Registry.FeatureViews.{
  view, apply_feature_view, ensure_valid, stamped, change_for, check_conflicting_names, proto_class,
  proto_class_eq, name_of,
}
use feast.Registry.Conflicts.{check_conflicting_names-classes}
use feast.Registry.Settled.{Settled, Known}
use feast.Registry.Views.{apply_feature_view-unchanged, apply_feature_view-stream_conflict}

-- The message of the view, as applied at 1003.
abbrev stats_proto : FeatureViewProto
stats_proto = record {
  name = "stats";
  project = "";
  body = record {
    entities = "driver" ∷ [];
    entity_columns = [];
    features = record { name = "rate"; value_type = 6; description = ""; tags = [] } ∷ [];
    description = "";
    tags = [];
    owner = "";
    ttl = some 0;
    online = true;
    batch_source = record {
      name = "trips";
      project = "";
      body = record {
        data_source_class_type = "feast.infra.offline_stores.file_source.FileSource";
        is_custom = false;
        timestamp_field = "event_timestamp";
        created_timestamp_column = "";
        field_mapping = [];
        date_partition_column = "";
        description = "";
        tags = [];
        owner = "";
        options = "trips.parquet";
      };
    };
    stream_source = none;
    created_timestamp = some 1003;
    last_updated_timestamp = some 1003;
    materialization_intervals = [];
  };
}

-- A registry in which the view is stored, and one in which a stream feature view has its name.
abbrev with_stats : RegistryProto
with_stats = record stored { feature_views = set_project rides stats_proto ∷ [] }

abbrev clicks_proto : StreamFeatureViewProto
clicks_proto = record {
  name = "stats";
  project = "rides";
  body = record {
    entities = "driver" ∷ [];
    entity_columns = [];
    features = [];
    user_defined_function = none;
    description = "";
    tags = [];
    owner = "";
    ttl = some 0;
    online = true;
    batch_source = none;
    stream_source = none;
    timestamp_field = "";
    aggregations = [];
    mode = "";
    created_timestamp = some 7;
    last_updated_timestamp = some 7;
    materialization_intervals = [];
  };
}

abbrev with_stream : RegistryProto
with_stream = record stored { stream_feature_views = clicks_proto ∷ [] }

with_stats-Known : Known rides with_stats
unfolding get_project_metadata string_eq
with_stats-Known = refl

with_stream-Known : Known rides with_stream
unfolding get_project_metadata string_eq
with_stream-Known = refl

stats-valid : FeatureView.ensure_valid stats ≡ ok tt
unfolding FeatureView.ensure_valid string_eq
stats-valid = refl

stats-written :
    FeatureViewMessages.to_proto (record stats { base = stamp 1003 stats.base }) ≡ ok stats_proto
unfolding FeatureViewMessages.to_proto stamp string_eq Field.to_proto DataSource.to_proto
    to_value_type value
stats-written = refl

stats-changes :
    (change : RegistryProto → Result (Option RegistryProto)) × (change_for env rides
        (stamped env 1003 (view stats))
      ≡ ok change)
unfolding change_for stamped FeatureViewMessages.to_proto stamp string_eq Field.to_proto
    DataSource.to_proto to_value_type value
stats-changes = (_, refl)

stats-admitted : check_conflicting_names (view stats) with_stats ≡ ok tt
unfolding check_conflicting_names string_eq proto_class proto_class_eq
stats-admitted = refl

stats-stored : find "stats" rides with_stats.feature_views ≡ some (set_project rides stats_proto)
unfolding find_first matches string_eq
stats-stored = refl

stats-read :
    FeatureViewMessages.from_proto (set_project rides stats_proto)
    ≡ ok (record stats { base = stamp 1003 stats.base })
unfolding FeatureViewMessages.from_proto stamp string_eq Field.from_proto DataSource.from_proto
    value_type_of from_value_type
stats-read = refl

stats-same :
    feature_view_eq
      (record stats { base = stamp 1003 stats.base })
      (record stats { base = stamp 1003 stats.base })
    ≡ ok true
unfolding feature_view_eq stamp string_eq bool_eq nat_eq option_eq feast_type_eq value_type_eq
    Field.field_eq dict_eq projection_eq
stats-same = refl

stats-taken : any (has_name "stats") with_stream.stream_feature_views ≡ true
unfolding any has_name string_eq
stats-taken = refl

check_conflicting_names-classes_example :
    check_conflicting_names (view stats) with_stream ≡ err (conflicting_feature_view_names "stats")
unfolding any has_name string_eq name_of
check_conflicting_names-classes_example = check_conflicting_names-classes (view stats) with_stream

apply_feature_view-stream_conflict_example :
    (t : State) × (apply_feature_view env (view stats) rides true (holding with_stream)
      ≡ (err (conflicting_feature_view_names "stats"), t))
    × Settled with_stream t
unfolding ensure_valid name_of
apply_feature_view-stream_conflict_example =
    apply_feature_view-stream_conflict env with_stream (view stats) rides stats-changes.0 true
      (holding with_stream) rides-named with_stream-Known (record { cached = refl; stored = refl })
      stats-valid stats-changes.1 stats-taken

apply_feature_view-unchanged_example :
    (t : State) × (apply_feature_view env (view stats) rides true (holding with_stats) ≡ (ok tt, t))
    × Settled with_stats t
apply_feature_view-unchanged_example =
    apply_feature_view-unchanged env with_stats stats
      (record stats { base = stamp 1003 stats.base }) stats_proto (set_project rides stats_proto)
      rides true (holding with_stats) rides-named with_stats-Known
      (record { cached = refl; stored = refl }) stats-valid stats-admitted stats-written
      stats-stored stats-read stats-same
