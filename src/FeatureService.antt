-- ===== src/FeatureService.antt =====
-- `FeatureService` of sdk/python/feast/feature_service.py: projections of several feature views that
-- are retrieved together.
pub mod Inference
use mathlib.Core.Option
use feast.Base.{
  ℕ, String, Bool, ◌&&◌, refl, Option, none, some, List, [], ◌∷◌, ◌++◌, map, Result, ok, err, ◌>>=◌,
  traverse, ◌==◌, string_eq,
}
use feast.Base.Dict.{Dict, dict_eq}
use feast.Base.Sort.{sorted, list_eq}
use feast.Proto.{Proto}
use feast.Projection
use feast.Projection.{FeatureViewProjection, FeatureViewProjectionProto, projection_eq, name_to_use}

-- The name and the projection of a feature view, which is all that a service reads of it.
pub record Grouping : Type 0 where
  pub name : String
  pub projection : FeatureViewProjection

pub record FeatureService : Type 0 where
  pub name : String
  pub feature_groupings : List Grouping
  pub feature_view_projections : List FeatureViewProjection
  pub description : String
  pub tags : Dict String String
  pub owner : String
  pub created_timestamp : Option ℕ
  pub last_updated_timestamp : Option ℕ
  -- The logging configuration, as its message.
  pub logging_config : Option String

pub record FeatureServiceBody : Type 0 where
  pub features : List FeatureViewProjectionProto
  pub description : String
  pub tags : Dict String String
  pub owner : String
  pub created_timestamp : Option ℕ
  pub last_updated_timestamp : Option ℕ
  pub logging_config : Option String

abbrev pub FeatureServiceProto : Type 0
FeatureServiceProto = Proto FeatureServiceBody

-- `FeatureService.__init__`
unfoldable pub make_feature_service :
    String → List Grouping → Dict String String → String → String → Option String → FeatureService
make_feature_service name features tags description owner logging_config = record {
  name = name;
  feature_groupings = features;
  feature_view_projections = map (λ (g : Grouping). g.projection) features;
  description = description;
  tags = tags;
  owner = owner;
  created_timestamp = none;
  last_updated_timestamp = none;
  logging_config = logging_config;
}

-- `FeatureService.__eq__`. Projections are ordered by their fields, the name first.
unfoldable pub feature_service_eq : FeatureService → FeatureService → Bool
unfolding sorted list_eq
feature_service_eq a b =
    a.name == b.name
    && a.description == b.description
    && dict_eq a.tags b.tags
    && a.owner == b.owner
    && list_eq projection_eq
        (sorted (λ (p : FeatureViewProjection). p.name) a.feature_view_projections)
        (sorted (λ (p : FeatureViewProjection). p.name) b.feature_view_projections)

-- `FeatureService.to_proto`
unfoldable pub to_proto : FeatureService → Result FeatureServiceProto
to_proto s = do
  features ← traverse Projection.to_proto s.feature_view_projections
  ok (record {
    name = s.name;
    project = "";
    body = record {
      features = features;
      description = s.description;
      tags = s.tags;
      owner = s.owner;
      created_timestamp = s.created_timestamp;
      last_updated_timestamp = s.last_updated_timestamp;
      logging_config = s.logging_config;
    };
  })

-- `FeatureService.from_proto`: a service that was read has no feature views, but only projections.
unfoldable pub from_proto : FeatureServiceProto → Result FeatureService
unfolding make_feature_service
from_proto p = do
  projections ← traverse Projection.from_proto p.body.features
  let s =
      make_feature_service p.name [] p.body.tags p.body.description p.body.owner
        p.body.logging_config
  ok (record s {
    feature_view_projections = projections;
    created_timestamp = p.body.created_timestamp;
    last_updated_timestamp = p.body.last_updated_timestamp;
  })
