-- ===== src/StreamFeatureView.antt =====
-- `StreamFeatureView` of sdk/python/feast/stream_feature_view.py, a feature view over a stream with a
-- user-defined transformation.
pub mod Messages
use feast.Base.{
  ℕ, String, Bool, true, false, ◌&&◌, ◌||◌, not, ◌≡◌, refl, arith, Option, none, some, List, [],
  ◌∷◌, ◌++◌, Result, ok, err, ◌>>=◌, ◌>>◌, require, ◌==◌, string_eq, option_eq, if◌then◌else◌,
  value_error, attribute_error, ◌and_then◌, any,
}
use feast.Base.Dict.{Dict}
use feast.Base.Sort.{list_eq}
use feast.Field.{Field, field_eq}
use feast.DataSource.{DataSource, Source, StreamSource, batch, stream}
use feast.Entity.{Entity}
use feast.Function.{Function}
use feast.Aggregation.{Aggregation, aggregation_eq}
use feast.BaseFeatureView.{BaseFeatureView, has_feature}
use feast.FeatureView.{FeatureView, make_feature_view, feature_view_eq}

pub record StreamFeatureView : Type 0 where
  pub view : FeatureView
  pub open view use *
  pub aggregations : List Aggregation
  pub mode : String
  pub timestamp_field : String
  pub udf : Option Function
  pub udf_string : Option String

-- `type(source).__name__ in SUPPORTED_STREAM_SOURCES`, or a source of the type `CUSTOM_SOURCE`.
unfoldable pub is_supported : DataSource → Bool
is_supported d =
    d.class_name == "feast.data_source.KafkaSource"
    || d.class_name == "feast.data_source.PushSource"
    || d.is_custom

abbrev pub source_object : Source → DataSource
source_object (batch d) = d
source_object (stream s) = s.source

abbrev pub is_empty {ℓ} : {A : Type ℓ} → List A → Bool
is_empty [] = true
is_empty (_ ∷ _) = false

-- `StreamFeatureView.__init__`
unfoldable pub make_stream_feature_view :
    String
    → Source
    → List Field
    → List Entity
    → Option ℕ
    → Bool
    → String
    → Dict String String
    → String
    → List Aggregation
    → String
    → String
    → Option Function
    → Option String
    → Result StreamFeatureView
unfolding is_supported
make_stream_feature_view name source schema entities ttl online description tags owner aggregations
      mode timestamp_field udf udf_string =
    do
      require (is_supported (source_object source))
          (value_error "Stream feature views need a stream source or CUSTOM_SOURCE.")
      require (is_empty aggregations || not (timestamp_field == ""))
          (value_error "aggregations must have a timestamp field associated with them.")
      view ← make_feature_view name source schema entities ttl online description tags owner
      ok (record {
        view = view;
        aggregations = aggregations;
        mode = mode;
        timestamp_field = timestamp_field;
        udf = udf;
        udf_string = udf_string;
      })

-- The comparison of what a stream feature view adds. Without a function of its own, only that the
-- other has none either is looked at.
unfoldable pub stream_part_eq : StreamFeatureView → StreamFeatureView → Bool
unfolding list_eq
stream_part_eq a b = elim a.udf [
  | none ↦ elim b.udf [ none ↦ true | some _ ↦ false ]
  | some f ↦ elim b.udf [
    | none ↦ false
    | some g ↦
        a.mode == b.mode
        && a.timestamp_field == b.timestamp_field
        && f.co_code == g.co_code
        && a.udf_string == b.udf_string
        && list_eq aggregation_eq a.aggregations b.aggregations
  ]
]

-- `StreamFeatureView.__eq__`
unfoldable pub stream_feature_view_eq : StreamFeatureView → StreamFeatureView → Result Bool
unfolding stream_part_eq
stream_feature_view_eq a b = do
  same ← feature_view_eq a.view b.view
  ok (same && stream_part_eq a b)

-- `FeatureView.schema`, `list(set(self.entity_columns + self.features))`: each field once. A set has
-- no order; the fields stand here in the order of the lists.
unfoldable pub distinct_fields : List Field → List Field → List Field
unfolding has_feature
distinct_fields seen [] = []
distinct_fields seen (f ∷ fs) =
    let first = f ∷ distinct_fields (f ∷ seen) fs in
    let again = distinct_fields seen fs in if has_feature seen f then again else first

unfoldable pub schema : FeatureView → List Field
unfolding distinct_fields
schema v = distinct_fields [] (v.entity_columns ++ v.features)
