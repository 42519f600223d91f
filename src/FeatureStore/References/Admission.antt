-- ===== src/FeatureStore/References/Admission.antt =====
-- Which references `_group_feature_refs` of sdk/python/feast/feature_store.py admits, and that it loses none.
use feast.Base.{
  ◌≡◌, ◌↔◌, refl, sym, ap, ◌∙◌, String, Bool, true, none, some, List, [], ◌∷◌, Result, ok, err,
  ◌>>=◌, All, string_eq, feature_view_not_found_anywhere, Option-cases, inl, inr, >>=-eq-ok,
}
use feast.Base.Dict.{lookup}
use feast.Field.{Field}
use feast.Projection.{get_feature}
use feast.FeatureStore.References.{add_element}
use feast.FeatureStore.References.Grouping.{
  add_to_set, Sets, add_dependencies, Indexes, group_by_view, split_ref, group_ref, group_refs,
}
use feast.FeatureStore.References.Held.{
  holds, holds-added, holds-add_to_set, holds-add_dependencies, Grows, Grows-refl, Grows-trans,
}

module _ (indexes : Indexes) where
  -- `get_feature` on the projection of the first view of that name: feature views come first, then on
  -- demand views, then request views.
  abbrev pub feature_of : String → String → Result Field
  feature_of view feat = elim (lookup view indexes.view_index) [
    | some v ↦ get_feature v.projection feat
    | none ↦ elim (lookup view indexes.on_demand_view_index) [
      | some v ↦ get_feature v.projection feat
      | none ↦ elim (lookup view indexes.request_view_index) [
        | some v ↦ get_feature v.projection feat
        | none ↦ err (feature_view_not_found_anywhere view)
      ]
    ]
  ]

  -- The feature is in the set of its view.
  abbrev pub in_group : Sets → String → String → Bool
  in_group t view feat = elim (lookup view indexes.view_index) [
    | some _ ↦ holds t.views_features view feat
    | none ↦ elim (lookup view indexes.on_demand_view_index) [
      | some _ ↦ holds t.on_demand_view_features view feat
      | none ↦ holds t.request_views_features view feat
    ]
  ]

  pub record IsAdmitted (ref : String) : Type 0 where
    pub view : String
    pub feat : String
    pub f : Field
    pub split : split_ref ref ≡ ok (view, feat)
    pub found : feature_of view feat ≡ ok f

  pub record IsGrouped (t : Sets) (ref : String) : Type 0 where
    pub view : String
    pub feat : String
    pub split : split_ref ref ≡ ok (view, feat)
    pub grouped : in_group t view feat ≡ true

  in_group-Grows :
      (s t : Sets) (view feat : String)
      → Grows s t
      → in_group s view feat ≡ true
      → in_group t view feat ≡ true
  in_group-Grows s t view feat g = elim (Option-cases (lookup view indexes.view_index)) [
    | inr (v, here) ↦ rw (in_group, here) (g.views view feat)
    | inl none_here ↦ elim (Option-cases (lookup view indexes.on_demand_view_index)) [
      | inr (v, there) ↦ rw (in_group, none_here, there) (g.on_demand view feat)
      | inl none_there ↦ rw (in_group, none_here, none_there) (g.request view feat)
    ]
  ]

  IsGrouped-Grows : (s t : Sets) (ref : String) → Grows s t → IsGrouped s ref → IsGrouped t ref
  IsGrouped-Grows s t ref g h = record {
    view = h.view;
    feat = h.feat;
    split = h.split;
    grouped = in_group-Grows s t h.view h.feat g h.grouped;
  }

  -- A step either checks the feature and then groups it, or fails as the check does.
  group_by_view-cases :
      (ref view feat : String) (s : Sets)
      → (t : Sets) × (group_by_view indexes ref view feat s ≡ (feature_of view feat >>= λ _. ok t))
        × (in_group t view feat ≡ true)
        × Grows s t
  unfolding group_by_view
  group_by_view-cases ref view feat s = elim (Option-cases (lookup view indexes.view_index)) [
    | inr (v, here) ↦ (
      record s { views_features = add_to_set view feat s.views_features },
      rw (group_by_view, feature_of, here) refl,
      rw (in_group, here) (holds-added view feat s.views_features),
      record {
        views = λ j y. holds-add_to_set view feat s.views_features j y;
        on_demand = λ j y held. held;
        request = λ j y held. held;
      },
    )
    | inl none_here ↦ elim (Option-cases (lookup view indexes.on_demand_view_index)) [
      | inr (v, there) ↦ (
        record s {
          on_demand_view_features = add_to_set view feat s.on_demand_view_features;
          views_features = add_dependencies v.source_feature_view_projections s.views_features;
        },
        rw (group_by_view, feature_of, none_here, there) refl,
        rw (in_group, none_here, there) (holds-added view feat s.on_demand_view_features),
        record {
          views =
              λ j y. holds-add_dependencies v.source_feature_view_projections s.views_features j y;
          on_demand = λ j y. holds-add_to_set view feat s.on_demand_view_features j y;
          request = λ j y held. held;
        },
      )
      | inl none_there ↦ (
        record s {
          request_views_features = add_to_set view feat s.request_views_features;
          request_view_refs = add_element ref s.request_view_refs;
        },
        elim (Option-cases (lookup view indexes.request_view_index)) [
          | inr (v, last) ↦ rw (group_by_view, feature_of, none_here, none_there, last) refl
          | inl missing ↦ rw (group_by_view, feature_of, none_here, none_there, missing) refl
        ],
        rw (in_group, none_here, none_there) (holds-added view feat s.request_views_features),
        record {
          views = λ j y held. held;
          on_demand = λ j y held. held;
          request = λ j y. holds-add_to_set view feat s.request_views_features j y;
        },
      )
    ]
  ]

  -- A reference that is admitted is grouped, and nothing is lost.
  group_ref-IsAdmitted :
      (ref : String) (s : Sets)
      → IsAdmitted ref
      → (t : Sets) × (group_ref indexes ref s ≡ ok t) × IsGrouped t ref × Grows s t
  unfolding group_ref
  group_ref-IsAdmitted ref s a =
      let (t, checked, grouped, grows) = group_by_view-cases ref a.view a.feat s in
      (
        t,
        ap (λ r. r >>= λ p. group_by_view indexes ref p.0 p.1 s) a.split
            ∙ checked
            ∙ ap (λ r. r >>= λ _. ok t) a.found,
        record { view = a.view; feat = a.feat; split = a.split; grouped = grouped },
        grows,
      )

  -- A reference that a step does not refuse is admitted.
  group_ref-ok : (ref : String) (s t : Sets) → group_ref indexes ref s ≡ ok t → IsAdmitted ref
  unfolding group_ref
  group_ref-ok ref s t returned =
      let ((view, feat), split, rest) =
        >>=-eq-ok (split_ref ref) (λ p. group_by_view indexes ref p.0 p.1 s) returned in
      let (u, checked, _, _) = group_by_view-cases ref view feat s in
      let (f, found, _) = >>=-eq-ok (feature_of view feat) (λ _. ok u) (sym checked ∙ rest) in
      record { view = view; feat = feat; f = f; split = split; found = found }

  pub group_refs-ok :
      (refs : List String) (s t : Sets) → group_refs indexes refs s ≡ ok t → All IsAdmitted refs
  unfolding group_refs
  group_refs-ok [] s t returned = tt
  group_refs-ok (ref ∷ refs) s t returned =
      let (u, first, rest) =
        >>=-eq-ok (group_ref indexes ref s) (group_refs indexes refs) returned in
      (group_ref-ok ref s u first, group_refs-ok refs u t rest)

  group_refs-IsGrouped :
      (refs : List String) (s : Sets)
      → All IsAdmitted refs
      → (t : Sets) × (group_refs indexes refs s ≡ ok t) × All (IsGrouped t) refs × Grows s t
  unfolding group_refs
  group_refs-IsGrouped [] s all = (s, refl, tt, Grows-refl s)
  group_refs-IsGrouped (ref ∷ refs) s (first, others) =
      let (u, returned, grouped, grows) = group_ref-IsAdmitted ref s first in
      let (t, went_on, all_grouped, grew) = group_refs-IsGrouped refs u others in
      (
        t,
        ap (λ r. r >>= group_refs indexes refs) returned ∙ went_on,
        (IsGrouped-Grows u t ref grew grouped, all_grouped),
        Grows-trans s u t grows grew,
      )

-- `_group_feature_refs` gets through the references exactly when each is admitted: it has one colon, and
-- the first view of that name (feature views, then on demand views, then request views) has the feature.
-- After the loop each feature is in the set of its view, whatever the sets held before.
pub group_refs-IsAdmitted :
    (indexes : Indexes) (refs : List String) (s : Sets)
    → All (IsAdmitted indexes) refs
      ↔ ((t : Sets) × (group_refs indexes refs s ≡ ok t) × All (IsGrouped indexes t) refs)
group_refs-IsAdmitted indexes refs s = (
  λ all.
      let (t, returned, grouped, _) = group_refs-IsGrouped indexes refs s all in
      (t, returned, grouped),
  λ (t, returned, _). group_refs-ok indexes refs s t returned,
)
