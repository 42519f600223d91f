-- ===== src/BaseFeatureView.antt =====
-- `BaseFeatureView` of sdk/python/feast/base_feature_view.py: what the four classes of feature views
-- share.
use feast.Base.{
  ℕ, String, Bool, true, ◌&&◌, not, ◌≡◌, ◌↔◌, refl, arith, Option, none, some, List, [], ◌∷◌,
  Result, ok, err, ◌>>=◌, ◌>>◌, traverse, require, ◌==◌, string_eq, value_error, any, All,
  Result-cases, inl, inr,
}
use feast.Base.Dict.{Dict, dict_eq, lookup, insert}
use feast.Base.Sort.{sorted, list_eq}
use feast.Field.{Field, field_eq}
use feast.Projection.{FeatureViewProjection, from_definition, projection_eq}

pub record BaseFeatureView : Type 0 where
  pub name : String
  pub features : List Field
  pub description : String
  pub tags : Dict String String
  pub owner : String
  pub projection : FeatureViewProjection
  pub created_timestamp : Option ℕ
  pub last_updated_timestamp : Option ℕ

-- `BaseFeatureView.__init__`
unfoldable pub make_base :
    String → List Field → String → Dict String String → String → BaseFeatureView
unfolding from_definition
make_base name features description tags owner = record {
  name = name;
  features = features;
  description = description;
  tags = tags;
  owner = owner;
  projection = from_definition name features;
  created_timestamp = none;
  last_updated_timestamp = none;
}

-- `sorted(xs) == sorted(ys)` on lists of fields, which are ordered by name.
unfoldable pub same_fields : List Field → List Field → Bool
unfolding sorted list_eq
same_fields xs ys =
    list_eq field_eq (sorted (λ (f : Field). f.name) xs) (sorted (λ (f : Field). f.name) ys)

-- `BaseFeatureView.__eq__`
unfoldable pub base_eq : BaseFeatureView → BaseFeatureView → Bool
base_eq a b =
    a.name == b.name
    && same_fields a.features b.features
    && projection_eq a.projection b.projection
    && a.description == b.description
    && dict_eq a.tags b.tags
    && a.owner == b.owner

-- `BaseFeatureView.ensure_valid`
unfoldable pub ensure_valid : BaseFeatureView → Result (Unit {0})
ensure_valid v = require (not (v.name == "")) (value_error "Feature view needs a name.")

-- `created_timestamp` and `last_updated_timestamp`, as an `apply` sets them.
unfoldable pub stamp : ℕ → BaseFeatureView → BaseFeatureView
stamp now v = record v {
  created_timestamp = elim v.created_timestamp [ none ↦ some now | some t ↦ some t ];
  last_updated_timestamp = some now;
}

-- `{feature.name: feature for feature in self.features}`
unfoldable pub feature_name_to_feature : List Field → Dict String Field → Dict String Field
unfolding insert
feature_name_to_feature [] d = d
feature_name_to_feature (f ∷ fs) d = feature_name_to_feature fs (insert f.name f d)

unfoldable pub referenced_feature : Dict String Field → String → Result Field
unfolding lookup
referenced_feature index feature = elim (lookup feature index) [
  | none ↦ err (value_error "does not exist in this feature view.")
  | some f ↦ ok f
]

-- The projection of `self[item]`, on the projection `cp` of a copy of `self`.
unfoldable pub get_item :
    BaseFeatureView → FeatureViewProjection → List String → Result FeatureViewProjection
unfolding feature_name_to_feature referenced_feature
get_item v cp item = elim v.features [
  | [] ↦ ok (record cp { desired_features = item })
  | _ ∷ _ ↦ do
    referenced ← traverse (referenced_feature (feature_name_to_feature v.features [])) item
    ok (record cp { features = referenced })
]

-- `feature not in self.features`, negated.
unfoldable pub has_feature : List Field → Field → Bool
unfolding any
has_feature fs f = any (λ g. field_eq f g) fs

-- `BaseFeatureView.set_projection`, and the checks of `with_projection`.
unfoldable pub check_features : List Field → List Field → Result (Unit {0})
unfolding has_feature
check_features fs [] = ok tt
check_features fs (f ∷ gs) = do
  require (has_feature fs f)
      (value_error "it contains a feature which the FeatureView doesn't have.")
  check_features fs gs

unfoldable pub set_projection : FeatureViewProjection → BaseFeatureView → Result BaseFeatureView
unfolding check_features
set_projection p v = do
  require (p.name == v.name) (value_error "it differs in name.")
  check_features v.features p.features
  ok (record v { projection = p })

check_features-ok :
    (fs gs : List Field) → (check_features fs gs ≡ ok tt) ↔ All (λ g. has_feature fs g ≡ true) gs
unfolding check_features
check_features-ok fs [] = (λ h. tt, λ h. refl)
check_features-ok fs (g ∷ gs) = ground (arith, check_features-ok fs gs)

-- A projection is accepted exactly when it has the view's name and selects features of the view,
-- and nothing but the projection changes.
pub set_projection-ok :
    (p : FeatureViewProjection) (v w : BaseFeatureView)
    → (set_projection p v ≡ ok w) ↔ (
        (p.name ≡ v.name)
        × All (λ g. has_feature v.features g ≡ true) p.features
        × (w ≡ record v { projection = p }))
unfolding set_projection
set_projection-ok p v w = elim (Result-cases (check_features v.features p.features)) [
  | inl (e, q) ↦ ground (arith, check_features-ok v.features p.features)
  | inr (t, q) ↦ ground (arith, check_features-ok v.features p.features)
]
