-- ===== src/StreamFeatureView/Messages.antt =====
-- `StreamFeatureView.to_proto` and `from_proto` of sdk/python/feast/stream_feature_view.py.
use mathlib.Core.Option
use feast.Base.{
  ℕ, String, Bool, Option, none, some, List, [], Result, ok, err, ◌>>=◌, traverse, map,
  attribute_error, if◌then◌else◌,
}
use feast.Base.Dict.{Dict}
use feast.Proto.{Proto}
use feast.Field
use feast.Field.{Field, FieldProto, from_proto-to_proto_all}
use feast.DataSource
use feast.DataSource.{
  DataSourceProto, StreamSourceProto, StreamSource, Source, batch, stream, stream_to_proto,
  stream_from_proto,
}
use feast.Function.{Function, Dill, UserDefinedFunctionProto}
use feast.Aggregation
use feast.Aggregation.{Aggregation, AggregationProto}
use feast.FeatureView.Messages.{read_ttl}
use feast.StreamFeatureView.{StreamFeatureView, make_stream_feature_view, schema}

pub record StreamFeatureViewBody : Type 0 where
  pub entities : List String
  pub entity_columns : List FieldProto
  pub features : List FieldProto
  pub user_defined_function : Option UserDefinedFunctionProto
  pub description : String
  pub tags : Dict String String
  pub owner : String
  pub ttl : Option ℕ
  pub online : Bool
  pub batch_source : Option DataSourceProto
  pub stream_source : Option StreamSourceProto
  pub timestamp_field : String
  pub aggregations : List AggregationProto
  pub mode : String
  pub created_timestamp : Option ℕ
  pub last_updated_timestamp : Option ℕ
  pub materialization_intervals : List (ℕ × ℕ)

abbrev pub StreamFeatureViewProto : Type 0
StreamFeatureViewProto = Proto StreamFeatureViewBody

-- A text that is not set reads as the empty one.
abbrev text_or_empty : Option String → String
text_or_empty none = ""
text_or_empty (some s) = s

abbrev batch_or : DataSource.DataSource → Option DataSourceProto → DataSource.DataSource
batch_or d none = d
batch_or d (some p) = DataSource.from_proto p

-- A source of a custom class is none of the stream sources' classes.
abbrev as_source : StreamSource → Source
as_source s = if s.source.is_custom then batch s.source else stream s

module _ (dill : Dill) where
  unfoldable pub udf_to_proto : Option String → Function → UserDefinedFunctionProto
  udf_to_proto udf_string f = record {
    fun_name = f.fun_name;
    body = dill.dumps f;
    body_text = text_or_empty udf_string;
  }

  -- `StreamFeatureView.to_proto`: the message's features are the whole schema.
  unfoldable pub to_proto : StreamFeatureView → Result StreamFeatureViewProto
  unfolding udf_to_proto
  to_proto v = do
    columns ← traverse Field.to_proto v.entity_columns
    features ← traverse Field.to_proto (schema v.view)
    ok (record {
      name = v.name;
      project = "";
      body = record {
        entities = v.entities;
        entity_columns = columns;
        features = features;
        user_defined_function = Option.map (udf_to_proto v.udf_string) v.udf;
        description = v.description;
        tags = v.tags;
        owner = v.owner;
        ttl = v.ttl;
        online = v.online;
        batch_source = some (DataSource.to_proto v.batch_source);
        stream_source = Option.map stream_to_proto v.stream_source;
        timestamp_field = v.timestamp_field;
        aggregations = map Aggregation.to_proto v.aggregations;
        mode = v.mode;
        created_timestamp = v.created_timestamp;
        last_updated_timestamp = v.last_updated_timestamp;
        materialization_intervals = v.materialization_intervals;
      };
    })

  -- `StreamFeatureView.from_proto`. Without a stream source the constructor gets `None`, which has
  -- no `to_proto`.
  unfoldable pub from_proto : StreamFeatureViewProto → Result StreamFeatureView
  unfolding make_stream_feature_view
  from_proto p = elim p.body.stream_source [
    | none ↦ err attribute_error
    | some source ↦ do
      features ← traverse Field.from_proto p.body.features
      sfv ←
          make_stream_feature_view p.name (as_source (stream_from_proto source)) features []
            (read_ttl p.body.ttl) p.body.online p.body.description p.body.tags p.body.owner
            (map Aggregation.from_proto p.body.aggregations) p.body.mode p.body.timestamp_field
            (Option.map (λ (u : UserDefinedFunctionProto). dill.loads u.body)
              p.body.user_defined_function)
            (Option.map (λ (u : UserDefinedFunctionProto). u.body_text)
              p.body.user_defined_function)
      columns ← traverse Field.from_proto p.body.entity_columns
      let fv = sfv.view
      ok (record sfv {
        view = record fv {
          base = record (fv.base) {
            features = features;
            created_timestamp = p.body.created_timestamp;
            last_updated_timestamp = p.body.last_updated_timestamp;
          };
          batch_source = batch_or fv.batch_source p.body.batch_source;
          stream_source = some (stream_from_proto source);
          entities = p.body.entities;
          entity_columns = columns;
          materialization_intervals = p.body.materialization_intervals;
        };
      })
  ]
