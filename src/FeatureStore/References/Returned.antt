-- ===== src/FeatureStore/References/Returned.antt =====
-- When `_group_feature_refs` of sdk/python/feast/feature_store.py returns: the views that its sets name are
-- found again.
use feast.Base.{
  ◌≡◌, ◌↔◌, refl, ap, ◌∙◌, subst, String, true, Option, List, [], ◌∷◌, Result, ok, err, ◌>>=◌, All,
  string_eq, Option-cases, inl, inr, >>=-eq-ok,
}
use feast.Base.Dict.{lookup}
use feast.Projection.{get_feature}
use feast.FeatureView.{FeatureView}
use feast.OnDemandFeatureView.{OnDemandFeatureView}
use feast.RequestFeatureView.{RequestFeatureView}
use feast.FeatureStore.References.Grouping.{
  index_by_name, Sets, no_sets, Indexes, group_by_view, split_ref, group_ref, group_refs, resolved,
  Grouped, indexes_of, resolve_sets, group_feature_refs,
}
use feast.FeatureStore.References.Admission.{IsAdmitted, group_refs-IsAdmitted, group_refs-ok}
use feast.FeatureStore.References.Known.{
  known, known-some, FoundHas, lookup-FoundHas, resolved-ok, add_to_set-KeysKnown, SourcesKnown,
  add_dependencies-KeysKnown, All-index_by_name, SourcesAmong, SourcesAmong-known,
}

-- The sets name views that are there.
record Sound (indexes : Indexes) (s : Sets) : Type 0 where
  views : All (λ e. known indexes.view_index e.0 ≡ true) s.views_features
  on_demand : All (λ e. known indexes.on_demand_view_index e.0 ≡ true) s.on_demand_view_features
  request : All (λ e. known indexes.request_view_index e.0 ≡ true) s.request_views_features

abbrev SoundResult : Indexes → Result Sets → Type 0
SoundResult indexes (err e) = Unit
SoundResult indexes (ok s) = Sound indexes s

>>=-SoundResult :
    {A : Type 0} (indexes : Indexes) (r : Result A) (rest : A → Result Sets)
    → ((a : A) → r ≡ ok a → SoundResult indexes (rest a))
    → SoundResult indexes (r >>= rest)
>>=-SoundResult indexes (err e) rest sound = tt
>>=-SoundResult indexes (ok a) rest sound = sound a refl

module _ (indexes : Indexes) where
  -- The sources of the on demand view, if there is one.
  abbrev OnDemandKnown : Option OnDemandFeatureView → Type 0
  OnDemandKnown o =
      FoundHas (λ v. SourcesKnown indexes.view_index v.source_feature_view_projections) o

  AllOnDemandKnown : Type 0
  AllOnDemandKnown =
      All (λ e. SourcesKnown indexes.view_index e.1.source_feature_view_projections)
        indexes.on_demand_view_index

  group_by_view-Sound :
      (ref view feat : String) (s : Sets)
      → OnDemandKnown (lookup view indexes.on_demand_view_index)
      → Sound indexes s
      → SoundResult indexes (group_by_view indexes ref view feat s)
  unfolding group_by_view
  group_by_view-Sound ref view feat s sources h =
      elim (Option-cases (lookup view indexes.view_index)) [
        | inr (v, here) ↦
            rw (group_by_view, here)
              (>>=-SoundResult indexes (get_feature v.projection feat) _ (λ f _. record {
                views =
                    add_to_set-KeysKnown indexes.view_index view feat s.views_features
                      (known-some indexes.view_index view v here) h.views;
                on_demand = h.on_demand;
                request = h.request;
              }))
        | inl none_here ↦ elim (Option-cases (lookup view indexes.on_demand_view_index)) [
          | inr (v, there) ↦
              rw (group_by_view, none_here, there)
                (>>=-SoundResult indexes (get_feature v.projection feat) _ (λ f _. record {
                  views =
                      add_dependencies-KeysKnown indexes.view_index
                        v.source_feature_view_projections s.views_features
                        (subst OnDemandKnown there sources) h.views;
                  on_demand =
                      add_to_set-KeysKnown indexes.on_demand_view_index view feat
                        s.on_demand_view_features
                        (known-some indexes.on_demand_view_index view v there) h.on_demand;
                  request = h.request;
                }))
          | inl none_there ↦ elim (Option-cases (lookup view indexes.request_view_index)) [
            | inr (v, last) ↦
                rw (group_by_view, none_here, none_there, last)
                  (>>=-SoundResult indexes (get_feature v.projection feat) _ (λ f _. record {
                    views = h.views;
                    on_demand = h.on_demand;
                    request =
                        add_to_set-KeysKnown indexes.request_view_index view feat
                          s.request_views_features
                          (known-some indexes.request_view_index view v last) h.request;
                  }))
            | inl missing ↦ rw (group_by_view, none_here, none_there, missing) tt
          ]
        ]
      ]

  group_refs-Sound :
      (refs : List String) (s : Sets)
      → AllOnDemandKnown
      → Sound indexes s
      → SoundResult indexes (group_refs indexes refs s)
  unfolding group_refs group_ref AllOnDemandKnown
  group_refs-Sound [] s sources h = h
  group_refs-Sound (ref ∷ refs) s sources h =
      >>=-SoundResult indexes (group_ref indexes ref s) (group_refs indexes refs) (λ t returned.
        group_refs-Sound refs t sources (
          subst (SoundResult indexes) returned (
            >>=-SoundResult indexes (split_ref ref) _ (λ p _.
              group_by_view-Sound ref p.0 p.1 s
                (lookup-FoundHas
                  (λ v. SourcesKnown indexes.view_index v.source_feature_view_projections) p.0
                  indexes.on_demand_view_index sources)
                h))))

  resolve_sets-ok :
      (set_order : List String → List String) (s : Sets)
      → Sound indexes s
      → (g : Grouped) × (resolve_sets set_order indexes s ≡ ok g)
  unfolding resolve_sets
  resolve_sets-ok set_order s h =
      let (fvs, first) = resolved-ok set_order indexes.view_index s.views_features h.views in
      let (request_fvs, second) =
        resolved-ok set_order indexes.request_view_index s.request_views_features h.request in
      let (odfvs, third) =
        resolved-ok set_order indexes.on_demand_view_index s.on_demand_view_features h.on_demand in
      (
        record {
          fvs_result = fvs;
          odfvs_result = odfvs;
          request_fvs_result = request_fvs;
          request_refs = s.request_view_refs;
        },
        rw (resolve_sets, first, second, third) refl,
      )

-- Where every source of every on demand view goes by the name of one of the feature views,
-- `_group_feature_refs` returns exactly when every reference has one colon, and the first view of that name
-- (feature views, then on demand views, then request views) has the feature: no view that the sets name is
-- missed when the results are put together.
pub group_feature_refs-IsAdmitted :
    (set_order : List String → List String) (features : List String) (views : List FeatureView)
    → (request_views : List RequestFeatureView) (on_demand_views : List OnDemandFeatureView)
    → All (SourcesAmong views) on_demand_views
    → All (IsAdmitted (indexes_of views request_views on_demand_views)) features ↔ (
        (g : Grouped) × (group_feature_refs set_order features views request_views on_demand_views
          ≡ ok g))
unfolding group_feature_refs indexes_of AllOnDemandKnown
group_feature_refs-IsAdmitted set_order features views request_views on_demand_views among = (
  λ all.
      let (t, returned, _) = (group_refs-IsAdmitted indexes features no_sets).0 all in
      let sound = subst (SoundResult indexes) returned (
        group_refs-Sound indexes features no_sets sources
          (record { views = tt; on_demand = tt; request = tt })) in
      let (g, resolved) = resolve_sets-ok indexes set_order t sound in
      (g, ap (λ r. r >>= resolve_sets set_order indexes) returned ∙ resolved),
  λ (g, returned).
      let (t, looped, _) =
        >>=-eq-ok (group_refs indexes features no_sets) (resolve_sets set_order indexes) returned in
      group_refs-ok indexes features no_sets t looped,
)
  where
    indexes : Indexes
    indexes = indexes_of views request_views on_demand_views

    sources : AllOnDemandKnown indexes
    sources =
        All-index_by_name
          (λ (v : OnDemandFeatureView).
            SourcesKnown (index_by_name (λ (w : FeatureView). w.projection) views [])
              v.source_feature_view_projections)
          (λ (v : OnDemandFeatureView). v.projection) on_demand_views []
          (SourcesAmong-known views on_demand_views among) tt
