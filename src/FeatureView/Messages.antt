-- ===== src/FeatureView/Messages.antt =====
-- `FeatureView.to_proto`, `to_proto_meta`, `get_ttl_duration` and `from_proto` of
-- sdk/python/feast/feature_view.py. A duration is a count of microseconds.
use mathlib.Core.Option
use feast.Base.{ℕ, String, Bool, Option, none, some, List, [], Result, ok, ◌>>=◌, traverse}
use feast.Base.Dict.{Dict}
use feast.Proto.{Proto}
use feast.Field
use feast.Field.{Field, FieldProto}
use feast.Projection.{from_definition}
use feast.DataSource
use feast.DataSource.{DataSourceProto, StreamSourceProto, batch, stream_to_proto, stream_from_proto}
use feast.FeatureView.{FeatureView, make_feature_view}

pub record FeatureViewBody : Type 0 where
  pub entities : List String
  pub entity_columns : List FieldProto
  pub features : List FieldProto
  pub description : String
  pub tags : Dict String String
  pub owner : String
  pub ttl : Option ℕ
  pub online : Bool
  pub batch_source : DataSourceProto
  pub stream_source : Option StreamSourceProto
  pub created_timestamp : Option ℕ
  pub last_updated_timestamp : Option ℕ
  pub materialization_intervals : List (ℕ × ℕ)

abbrev pub FeatureViewProto : Type 0
FeatureViewProto = Proto FeatureViewBody

-- The message of a view whose columns and features have been written.
abbrev message : FeatureView → List FieldProto → List FieldProto → FeatureViewProto
message v columns features = record {
  name = v.name;
  project = "";
  body = record {
    entities = v.entities;
    entity_columns = columns;
    features = features;
    description = v.description;
    tags = v.tags;
    owner = v.owner;
    ttl = v.ttl;
    online = v.online;
    batch_source = DataSource.to_proto v.batch_source;
    stream_source = Option.map stream_to_proto v.stream_source;
    created_timestamp = v.created_timestamp;
    last_updated_timestamp = v.last_updated_timestamp;
    materialization_intervals = v.materialization_intervals;
  };
}

-- `FeatureView.to_proto`
unfoldable pub to_proto : FeatureView → Result FeatureViewProto
to_proto v = do
  columns ← traverse Field.to_proto v.entity_columns
  features ← traverse Field.to_proto v.features
  ok (message v columns features)

-- A duration that is not set reads as zero.
abbrev pub read_ttl : Option ℕ → Option ℕ
read_ttl none = some 0
read_ttl (some t) = some t

-- `FeatureView.from_proto`
unfoldable pub from_proto : FeatureViewProto → Result FeatureView
unfolding make_feature_view from_definition
from_proto p = do
  fv ←
      make_feature_view p.name (batch (DataSource.from_proto p.body.batch_source)) [] []
        (read_ttl p.body.ttl) p.body.online p.body.description p.body.tags p.body.owner
  features ← traverse Field.from_proto p.body.features
  columns ← traverse Field.from_proto p.body.entity_columns
  ok (record fv {
    base = record (fv.base) {
      features = features;
      projection = from_definition fv.name features;
      created_timestamp = p.body.created_timestamp;
      last_updated_timestamp = p.body.last_updated_timestamp;
    };
    entities = p.body.entities;
    stream_source = Option.map stream_from_proto p.body.stream_source;
    entity_columns = columns;
    materialization_intervals = p.body.materialization_intervals;
  })

-- A feature view as its message gives it back: with the default projection, and with a missing time
-- to live as the one of 0, which stands for no limit.
abbrev pub reloaded : FeatureView → FeatureView
reloaded v = record v {
  base = record (v.base) { projection = from_definition v.name v.features };
  ttl = read_ttl v.ttl;
}
