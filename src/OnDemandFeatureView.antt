-- ===== src/OnDemandFeatureView.antt =====
-- `OnDemandFeatureView` of sdk/python/feast/on_demand_feature_view.py: features computed from other
-- views and from the request by a user-defined function.
use feast.Base.{
  ℕ, String, Bool, true, false, ◌&&◌, Option, none, some, List, [], ◌∷◌, map, Result, ok, ◌>>=◌,
  traverse, ◌==◌, string_eq,
}
use feast.Base.Dict.{Dict, insert, lookup}
use feast.Proto.{Proto}
use feast.Types.{from_value_type, value_type_of}
use feast.Field
use feast.Field.{Field, FieldProto}
use feast.Projection
use feast.Projection.{
  FeatureViewProjection, FeatureViewProjectionProto, from_definition, projection_eq,
}
use feast.RequestSource
use feast.RequestSource.{RequestSource, RequestSourceProto, request_source_eq}
use feast.Function.{Function, Dill, UserDefinedFunctionProto}
use feast.BaseFeatureView.{BaseFeatureView, make_base, base_eq}
use feast.FeatureView.{FeatureView}
use feast.FeatureView.Messages.{FeatureViewProto, from_proto as view_from_proto}

pub record OnDemandFeatureView : Type 0 where
  pub base : BaseFeatureView
  pub open base use *
  pub source_feature_view_projections : Dict String FeatureViewProjection
  pub source_request_sources : Dict String RequestSource
  pub udf : Function
  pub udf_string : String

-- An element of the argument `sources`.
pub data OdfvSource : Type 0 where
  feature_view : FeatureView → OdfvSource
  projection : FeatureViewProjection → OdfvSource
  request : RequestSource → OdfvSource

-- The message `OnDemandSource`, a `oneof`.
pub data OnDemandSource : Type 0 where
  feature_view_source : FeatureViewProto → OnDemandSource
  feature_view_projection : FeatureViewProjectionProto → OnDemandSource
  request_data_source : RequestSourceProto → OnDemandSource

pub record OnDemandFeatureViewBody : Type 0 where
  pub features : List FieldProto
  pub sources : Dict String OnDemandSource
  pub user_defined_function : UserDefinedFunctionProto
  pub description : String
  pub tags : Dict String String
  pub owner : String
  pub created_timestamp : Option ℕ
  pub last_updated_timestamp : Option ℕ

abbrev pub OnDemandFeatureViewProto : Type 0
OnDemandFeatureViewProto = Proto OnDemandFeatureViewBody

abbrev Sources : Type 0
Sources = Dict String FeatureViewProjection × Dict String RequestSource

-- The loop of `__init__` over the sources. A feature view stands under its own name, by the
-- projection that it has.
unfoldable pub add_sources : List OdfvSource → Sources → Sources
unfolding insert
add_sources [] d = d
add_sources (request s ∷ rest) (ps, rs) = add_sources rest (ps, insert s.name s rs)
add_sources (projection p ∷ rest) (ps, rs) = add_sources rest (insert p.name p ps, rs)
add_sources (feature_view v ∷ rest) (ps, rs) = add_sources rest (insert v.name v.projection ps, rs)

-- `OnDemandFeatureView.__init__`
unfoldable pub make_on_demand_feature_view :
    String
    → List Field
    → List OdfvSource
    → Function
    → String
    → String
    → Dict String String
    → String
    → OnDemandFeatureView
unfolding make_base add_sources
make_on_demand_feature_view name schema sources udf udf_string description tags owner =
    let (ps, rs) = add_sources sources ([], []) in
    record {
      base = make_base name schema description tags owner;
      source_feature_view_projections = ps;
      source_request_sources = rs;
      udf = udf;
      udf_string = udf_string;
    }

-- Equality of dicts by an equality of their values that need not be decided by the values alone.
unfoldable pub entries_in : {V : Type 0} → (V → V → Bool) → Dict String V → Dict String V → Bool
unfolding lookup
entries_in same [] d = true
entries_in same ((k, v) ∷ c) d =
    elim (lookup k d) [ none ↦ false | some w ↦ same v w ] && entries_in same c d

unfoldable pub keys_in : {V : Type 0} → Dict String V → Dict String V → Bool
unfolding lookup
keys_in [] d = true
keys_in ((k, v) ∷ c) d = elim (lookup k d) [ none ↦ false | some w ↦ true ] && keys_in c d

-- `OnDemandFeatureView.__eq__`
unfoldable pub on_demand_feature_view_eq : OnDemandFeatureView → OnDemandFeatureView → Result Bool
unfolding entries_in keys_in
on_demand_feature_view_eq a b = ok (
    base_eq a.base b.base
    && entries_in projection_eq a.source_feature_view_projections b.source_feature_view_projections
    && keys_in b.source_feature_view_projections a.source_feature_view_projections
    && entries_in request_source_eq a.source_request_sources b.source_request_sources
    && keys_in b.source_request_sources a.source_request_sources
    && a.udf_string == b.udf_string
    && a.udf.co_code == b.udf.co_code)

-- A dict's values, written one by one.
unfoldable pub write_values :
    {V W : Type 0} → (V → Result W) → Dict String V → Result (Dict String W)
write_values write = traverse (λ (k, v). do w ← write v; ok (k, w))

-- The two loops of `to_proto` over the sources; of two sources of one name the request source stays.
unfoldable pub merge : {V : Type 0} → Dict String V → Dict String V → Dict String V
unfolding insert
merge [] d = d
merge ((k, v) ∷ c) d = merge c (insert k v d)

unfoldable pub source_from_proto : OnDemandSource → Result OdfvSource
source_from_proto (feature_view_source p) = do v ← view_from_proto p; ok (projection v.projection)
source_from_proto (feature_view_projection p) = do q ← Projection.from_proto p; ok (projection q)
source_from_proto (request_data_source p) = do s ← RequestSource.from_proto p; ok (request s)

-- `Field(name=feature.name, dtype=from_value_type(ValueType(feature.value_type)))`: a field's
-- description and tags are not read.
unfoldable pub bare_field : FieldProto → Result Field
bare_field p = do
  t ← value_type_of p.value_type
  dtype ← from_value_type t
  ok (record { name = p.name; dtype = dtype; description = ""; tags = [] })

module _ (dill : Dill) where
  -- `OnDemandFeatureView.to_proto`
  unfoldable pub to_proto : OnDemandFeatureView → Result OnDemandFeatureViewProto
  unfolding write_values merge
  to_proto v = do
    projections ←
        write_values (λ p. do q ← Projection.to_proto p; ok (feature_view_projection q))
          v.source_feature_view_projections
    requests ←
        write_values (λ s. do q ← RequestSource.to_proto s; ok (request_data_source q))
          v.source_request_sources
    features ← traverse Field.to_proto v.features
    ok (record {
      name = v.name;
      project = "";
      body = record {
        features = features;
        sources = merge requests projections;
        user_defined_function = record {
          fun_name = v.udf.fun_name;
          body = dill.dumps v.udf;
          body_text = v.udf_string;
        };
        description = v.description;
        tags = v.tags;
        owner = v.owner;
        created_timestamp = v.created_timestamp;
        last_updated_timestamp = v.last_updated_timestamp;
      };
    })

  -- `OnDemandFeatureView.from_proto`
  unfoldable pub from_proto : OnDemandFeatureViewProto → Result OnDemandFeatureView
  unfolding source_from_proto bare_field make_on_demand_feature_view from_definition
  from_proto p = do
    sources ← traverse source_from_proto (map (λ (k, s). s) p.body.sources)
    schema ← traverse bare_field p.body.features
    let u = p.body.user_defined_function
    let v =
        make_on_demand_feature_view p.name schema sources (dill.loads u.body) u.body_text
          p.body.description p.body.tags p.body.owner
    ok (record v {
      base = record (v.base) {
        projection = from_definition v.name v.features;
        created_timestamp = p.body.created_timestamp;
        last_updated_timestamp = p.body.last_updated_timestamp;
      };
    })
