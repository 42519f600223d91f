-- ===== src/FeatureService/Inference.antt =====
-- `FeatureService.infer_features` of sdk/python/feast/feature_service.py.
use feast.Base.{
  String, Bool, true, false, none, some, List, [], ◌∷◌, map, filter, any, Result, ok, err, ◌>>=◌,
  ◌>>◌, require, if◌then◌else◌, ◌==◌, string_eq, assertion_error,
  feature_view_missing_during_inference,
}
use feast.Base.Dict.{Dict, lookup}
use feast.Field.{Field}
use feast.Projection.{FeatureViewProjection}
use feast.FeatureService.{FeatureService, Grouping}

-- `x in xs`
unfoldable pub contains : List String → String → Bool
unfolding any
contains xs x = any (λ y. y == x) xs

-- `desired_features.issubset(actual_features)`
unfoldable pub is_subset : List String → List String → Bool
unfolding contains
is_subset [] ys = true
is_subset (x ∷ xs) ys = let rest = is_subset xs ys in if contains ys x then rest else false

-- A projection that wants the features `ds` of its view gets those, if the view has them all.
unfoldable pub select_desired :
    List String → FeatureViewProjection → List Field → Result FeatureViewProjection
unfolding is_subset filter
select_desired ds p fields = do
  require (is_subset ds (map (λ (f : Field). f.name) fields)) assertion_error
  ok (record p { features = filter (λ (f : Field). contains ds f.name) fields })

-- `fvs_to_update[name]`, or the exception for a view that is not there.
unfoldable pub view_features : String → Dict String (List Field) → String → Result (List Field)
unfolding lookup
view_features service fvs_to_update name = elim (lookup name fvs_to_update) [
  | none ↦ err (feature_view_missing_during_inference name service)
  | some fields ↦ ok fields
]

-- What the loop makes of one projection, where `fvs_to_update` gives the features of each view, by
-- the features that the projection desires and those that it has.
unfoldable pub infer_by :
    List String
    → List Field
    → String
    → Dict String (List Field)
    → Grouping
    → Result FeatureViewProjection
unfolding select_desired view_features
infer_by (d ∷ ds) features service fvs g = do
  fields ← view_features service fvs g.name
  select_desired (d ∷ ds) g.projection fields
infer_by [] (f ∷ fs) service fvs g = ok g.projection
infer_by [] [] service fvs g = do
  fields ← view_features service fvs g.name
  let p = g.projection
  ok (record p { features = fields })

unfoldable pub infer_projection :
    String → Dict String (List Field) → Grouping → Result FeatureViewProjection
unfolding infer_by
infer_projection service fvs g =
    infer_by g.projection.desired_features g.projection.features service fvs g

-- `FeatureService.infer_features`: the projections of the groupings, changed in place. A projection
-- and the one in `feature_view_projections` are one object.
unfoldable pub infer_groupings :
    String → Dict String (List Field) → List Grouping → Result (List Grouping)
unfolding infer_projection
infer_groupings service fvs [] = ok []
infer_groupings service fvs (g ∷ gs) = do
  p ← infer_projection service fvs g
  rest ← infer_groupings service fvs gs
  ok (record g { projection = p } ∷ rest)

unfoldable pub infer_features : Dict String (List Field) → FeatureService → Result FeatureService
unfolding infer_groupings
infer_features fvs s = do
  groupings ← infer_groupings s.name fvs s.feature_groupings
  ok (record s {
    feature_groupings = groupings;
    feature_view_projections = map (λ (g : Grouping). g.projection) groupings;
  })
