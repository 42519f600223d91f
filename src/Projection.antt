-- ===== src/Projection.antt =====
-- `FeatureViewProjection` of sdk/python/feast/feature_view_projection.py: a selection of features of
-- one feature view.
use feast.Base.{
  String, Bool, ◌&&◌, ◌≡◌, arith, Option, none, some, List, [], Result, ok, err, ◌>>=◌, traverse,
  Result-cases, inl, inr, ◌==◌, string_eq, option_eq, if◌then◌else◌, find_first, key_error,
}
use feast.Base.Dict.{Dict, dict_eq}
use feast.Base.Sort.{list_eq}
use feast.Field
use feast.Field.{Field, FieldProto, field_eq, from_proto-to_proto_all}

pub record FeatureViewProjection : Type 0 where
  pub name : String
  pub name_alias : Option String
  pub desired_features : List String
  pub features : List Field
  pub join_key_map : Dict String String

pub record FeatureViewProjectionProto : Type 0 where
  pub feature_view_name : String
  pub feature_view_name_alias : String
  pub feature_columns : List FieldProto
  pub join_key_map : Dict String String

-- `a or b` on an optional text: an empty text is false too.
unfoldable pub or_else : Option String → String → String
or_else none b = b
or_else (some a) b = if a == "" then b else a

-- `FeatureViewProjection.name_to_use`
unfoldable pub name_to_use : FeatureViewProjection → String
name_to_use p = or_else p.name_alias p.name

-- `FeatureViewProjection.to_proto`
unfoldable pub to_proto : FeatureViewProjection → Result FeatureViewProjectionProto
to_proto p = do
  columns ← traverse Field.to_proto p.features
  ok (record {
    feature_view_name = p.name;
    feature_view_name_alias = or_else p.name_alias "";
    feature_columns = columns;
    join_key_map = p.join_key_map;
  })

-- `FeatureViewProjection.from_proto`
unfoldable pub from_proto : FeatureViewProjectionProto → Result FeatureViewProjection
from_proto p = do
  features ← traverse Field.from_proto p.feature_columns
  ok (record {
    name = p.feature_view_name;
    name_alias = some p.feature_view_name_alias;
    desired_features = [];
    features = features;
    join_key_map = p.join_key_map;
  })

-- `FeatureViewProjection.from_definition`, on the name and the features of a feature view.
unfoldable pub from_definition : String → List Field → FeatureViewProjection
from_definition name features = record {
  name = name;
  name_alias = none;
  desired_features = [];
  features = features;
  join_key_map = [];
}

-- `FeatureViewProjection.get_feature`
unfoldable pub get_feature : FeatureViewProjection → String → Result Field
get_feature p feature_name = elim (find_first (λ (f : Field). f.name == feature_name) p.features) [
  | none ↦ err (key_error feature_name)
  | some f ↦ ok f
]

-- The equality that the class decorator generates: all fields, in order.
unfoldable pub projection_eq : FeatureViewProjection → FeatureViewProjection → Bool
projection_eq a b =
    a.name == b.name
    && a.name_alias == b.name_alias
    && list_eq (λ s t. s == t) a.desired_features b.desired_features
    && list_eq field_eq a.features b.features
    && dict_eq a.join_key_map b.join_key_map

-- A projection as its message gives it back: without its desired features, and with a missing
-- alias as the empty one.
abbrev pub reloaded : FeatureViewProjection → FeatureViewProjection
reloaded p = record p { name_alias = some (or_else p.name_alias ""); desired_features = [] }

name_to_use-reloaded : (p : FeatureViewProjection) → name_to_use (reloaded p) ≡ name_to_use p
unfolding name_to_use or_else
name_to_use-reloaded p = ground arith

-- A projection whose message can be written is read back from it with its name, its features and
-- its join keys, without its desired features, and going by the same name.
pub from_proto-to_proto_projection :
    (p : FeatureViewProjection) (q : FeatureViewProjectionProto)
    → to_proto p ≡ ok q
    → (from_proto q ≡ ok (reloaded p)) × (name_to_use (reloaded p) ≡ name_to_use p)
unfolding to_proto from_proto
from_proto-to_proto_projection p q h = elim (Result-cases (traverse Field.to_proto p.features)) [
  | inl (e, r) ↦ ground arith
  | inr (columns, r) ↦
      (ground (arith, from_proto-to_proto_all p.features columns r), name_to_use-reloaded p)
]
