-- ===== src/FeatureStore/References/Grouping.antt =====
-- `_group_feature_refs` of sdk/python/feast/feature_store.py: the references to features, by view.
use feast.Base.{
  String, List, [], ◌∷◌, none, some, Result, ok, err, ◌>>=◌, value_error, key_error, traverse,
  string_eq, feature_view_not_found_anywhere,
}
use feast.Base.Dict.{Dict, lookup, insert}
use feast.Field.{Field}
use feast.Projection.{FeatureViewProjection, name_to_use, get_feature}
use feast.FeatureView.{FeatureView}
use feast.OnDemandFeatureView.{OnDemandFeatureView}
use feast.RequestFeatureView.{RequestFeatureView}
use feast.FeatureStore.References.{parts, add_element}

-- `{view.projection.name_to_use(): view for view in views}`
unfoldable pub index_by_name :
    {A : Type 0} → (A → FeatureViewProjection) → List A → Dict String A → Dict String A
unfolding insert name_to_use
index_by_name projection [] acc = acc
index_by_name projection (v ∷ vs) acc =
    index_by_name projection vs (insert (name_to_use (projection v)) v acc)

-- `d[k].add(x)` on a `defaultdict(set)`
unfoldable pub add_to_set : String → String → Dict String (List String) → Dict String (List String)
unfolding lookup insert add_element
add_to_set k x d = elim (lookup k d) [
  | none ↦ insert k (x ∷ []) d
  | some xs ↦ insert k (add_element x xs) d
]

-- The sets that the loop of `_group_feature_refs` fills.
pub record Sets : Type 0 where
  pub views_features : Dict String (List String)
  pub request_views_features : Dict String (List String)
  pub request_view_refs : List String
  pub on_demand_view_features : Dict String (List String)

abbrev pub no_sets : Sets
no_sets = record {
  views_features = [];
  request_views_features = [];
  request_view_refs = [];
  on_demand_view_features = [];
}

unfoldable pub add_names :
    String → List Field → Dict String (List String) → Dict String (List String)
unfolding add_to_set
add_names name [] d = d
add_names name (f ∷ fs) d = add_names name fs (add_to_set name f.name d)

-- The features that an on demand view takes from the projections of its sources.
unfoldable pub add_dependencies :
    Dict String FeatureViewProjection → Dict String (List String) → Dict String (List String)
unfolding add_names
add_dependencies [] d = d
add_dependencies ((_, p) ∷ ps) d = add_dependencies ps (add_names p.name p.features d)

-- The views by their names.
pub record Indexes : Type 0 where
  pub view_index : Dict String FeatureView
  pub request_view_index : Dict String RequestFeatureView
  pub on_demand_view_index : Dict String OnDemandFeatureView

-- The body of the loop, on the two parts of a reference: feature views come first, then on demand views,
-- then request views.
unfoldable pub group_by_view : Indexes → String → String → String → Sets → Result Sets
unfolding lookup get_feature add_to_set add_dependencies add_element
group_by_view indexes ref view_name feat_name sets = elim (lookup view_name indexes.view_index) [
  | some view ↦ get_feature view.projection feat_name >>= λ _.
      ok (record sets { views_features = add_to_set view_name feat_name sets.views_features })
  | none ↦ elim (lookup view_name indexes.on_demand_view_index) [
    | some view ↦ get_feature view.projection feat_name >>= λ _. ok (record sets {
      on_demand_view_features = add_to_set view_name feat_name sets.on_demand_view_features;
      views_features = add_dependencies view.source_feature_view_projections sets.views_features;
    })
    | none ↦ elim (lookup view_name indexes.request_view_index) [
      | some view ↦ get_feature view.projection feat_name >>= λ _. ok (record sets {
        request_views_features = add_to_set view_name feat_name sets.request_views_features;
        request_view_refs = add_element ref sets.request_view_refs;
      })
      | none ↦ err (feature_view_not_found_anywhere view_name)
    ]
  ]
]

-- `view_name, feat_name = ref.split(":")`
unfoldable pub split_ref : String → Result (String × String)
split_ref ref = elim (parts ref) [
  | view_name ∷ feat_name ∷ [] ↦ ok (view_name, feat_name)
  | view_name ∷ [] ↦ err (value_error "not enough values to unpack (expected 2, got 1)")
  | _ ↦ err (value_error "too many values to unpack (expected 2)")
]

unfoldable pub group_ref : Indexes → String → Sets → Result Sets
unfolding split_ref group_by_view
group_ref indexes ref sets = split_ref ref >>= λ p. group_by_view indexes ref p.0 p.1 sets

unfoldable pub group_refs : Indexes → List String → Sets → Result Sets
unfolding group_ref
group_refs indexes [] sets = ok sets
group_refs indexes (ref ∷ refs) sets = group_ref indexes ref sets >>= group_refs indexes refs

-- `[(index[name], list(names)) for name, names in sets.items()]`; the order of `list` on a set is a
-- parameter.
unfoldable pub resolved :
    {A : Type 0}
    → (List String → List String)
    → Dict String A
    → Dict String (List String)
    → Result (List (A × List String))
unfolding lookup
resolved set_order index sets =
    traverse
      (λ (p : String × List String). elim (lookup p.0 index) [
        | none ↦ err (key_error p.0)
        | some view ↦ ok (view, set_order p.1)
      ])
      sets

pub record Grouped : Type 0 where
  pub fvs_result : List (FeatureView × List String)
  pub odfvs_result : List (OnDemandFeatureView × List String)
  pub request_fvs_result : List (RequestFeatureView × List String)
  pub request_refs : List String

unfoldable pub indexes_of :
    List FeatureView → List RequestFeatureView → List OnDemandFeatureView → Indexes
unfolding index_by_name
indexes_of views request_views on_demand_views = record {
  view_index = index_by_name (λ (v : FeatureView). v.projection) views [];
  request_view_index = index_by_name (λ (v : RequestFeatureView). v.projection) request_views [];
  on_demand_view_index =
      index_by_name (λ (v : OnDemandFeatureView). v.projection) on_demand_views [];
}

-- The results of `_group_feature_refs`, by the sets of its loop.
unfoldable pub resolve_sets : (List String → List String) → Indexes → Sets → Result Grouped
unfolding resolved
resolve_sets set_order indexes sets = do
  fvs ← resolved set_order indexes.view_index sets.views_features
  request_fvs ← resolved set_order indexes.request_view_index sets.request_views_features
  odfvs ← resolved set_order indexes.on_demand_view_index sets.on_demand_view_features
  ok (record {
    fvs_result = fvs;
    odfvs_result = odfvs;
    request_fvs_result = request_fvs;
    request_refs = sets.request_view_refs;
  })

-- `_group_feature_refs`
unfoldable pub group_feature_refs :
    (List String → List String)
    → List String
    → List FeatureView
    → List RequestFeatureView
    → List OnDemandFeatureView
    → Result Grouped
unfolding group_refs indexes_of resolve_sets
group_feature_refs set_order features views request_views on_demand_views =
    let indexes = indexes_of views request_views on_demand_views in
    group_refs indexes features no_sets >>= resolve_sets set_order indexes
