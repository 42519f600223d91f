-- ===== src/FeatureStore/Tests.antt =====
-- The theorems on the online retrieval of features and on names, at small values.
use feast.Base.{
  ◌≡◌, ◌↔◌, refl, ℕ, String, Bool, true, false, none, some, List, [], ◌∷◌, ok, Result, Eq, All,
  string_eq, nat_eq, if◌then◌else◌, ltb, map, any, ◌+◌,
}
use native.Mathlib.Decide.{ℕ_discrete}
use feast.Base.Dict.{Dict}
use feast.Samples.{stats, trips}
use feast.OnDemandFeatureView.{OnDemandFeatureView}
use feast.FeatureView.{all_distinct, contains}
use feast.Projection.{name_to_use, or_else}
use feast.FeatureStore.Online.{FeatureVector, Response, ReadRow, drop_unneeded_columns, present}
use feast.FeatureStore.Online.Drop.{drop_unneeded_columns-kept_columns}
use feast.FeatureStore.References.Grouping.{
  Indexes, Sets, no_sets, group_refs, Grouped, indexes_of, group_feature_refs,
}
use feast.FeatureStore.References.Admission.{IsAdmitted, IsGrouped, group_refs-IsAdmitted}
use feast.FeatureStore.References.Returned.{group_feature_refs-IsAdmitted}
use feast.FeatureStore.References.Names.{
  validate_names-all_distinct, validate_feature_views, validate_data_sources,
}

instance rows_eq : Eq (List ℕ)
rows_eq = record { dec = hlevel (ℕ_discrete) }

abbrev first_less : List ℕ → List ℕ → Bool
first_less (x ∷ xs) (y ∷ ys) = ltb x y
first_less xs ys = false

-- A store that has each feature of the drivers below 3, at time 7.
abbrev read : List String → Dict String ℕ → ReadRow ℕ
read features [] = (none, none)
read features ((_, driver) ∷ _) =
    if ltb driver 3 then (some 7, some (map (λ f. (f, driver + 10)) features)) else (none, none)

abbrev online_read : List (Dict String ℕ) → List String → Result (List (ReadRow ℕ))
online_read entity_rows features = ok (map (read features) entity_rows)

abbrev no_columns : Response ℕ
no_columns = record { feature_names = []; results = [] }

abbrev drivers : Dict String (List ℕ)
drivers = ("driver_id", 2 ∷ 1 ∷ 4 ∷ 2 ∷ []) ∷ []

abbrev column : ℕ → FeatureVector ℕ
column v = record { values = v ∷ []; statuses = present ∷ []; event_timestamps = 0 ∷ [] }

drop_unneeded_columns-kept_columns_example :
    drop_unneeded_columns
      (record {
        feature_names = "rate" ∷ "trips" ∷ "driver_id" ∷ [];
        results = column 1 ∷ column 2 ∷ column 3 ∷ [];
      })
      ("rate" ∷ "driver_id" ∷ [])
    ≡ ok (record { feature_names = "rate" ∷ "driver_id" ∷ []; results = column 1 ∷ column 3 ∷ [] })
unfolding contains any string_eq
drop_unneeded_columns-kept_columns_example =
    drop_unneeded_columns-kept_columns ("rate" ∷ "driver_id" ∷ [])
      (record {
        feature_names = "rate" ∷ "trips" ∷ "driver_id" ∷ [];
        results = column 1 ∷ column 2 ∷ column 3 ∷ [];
      })
      refl

-- Every letter is taken for lower case.
abbrev lower : String → String
lower name = name

validate_names-all_distinct_example :
    ((validate_feature_views lower (stats.base ∷ stats.base ∷ []) ≡ ok tt)
      ↔ (all_distinct ("stats" ∷ "stats" ∷ []) ≡ true))
    × ((validate_data_sources lower (trips ∷ []) ≡ ok tt) ↔ (all_distinct ("trips" ∷ []) ≡ true))
validate_names-all_distinct_example =
    validate_names-all_distinct lower (stats.base ∷ stats.base ∷ []) (trips ∷ [])

abbrev indexes : Indexes
indexes = record {
  view_index = ("stats", stats) ∷ [];
  request_view_index = [];
  on_demand_view_index = [];
}

abbrev wanted : List String
wanted = "stats:rate" ∷ "stats:trips" ∷ "stats:rate" ∷ []

group_refs-IsAdmitted_example :
    All (IsAdmitted indexes) wanted
    ↔ ((t : Sets) × (group_refs indexes wanted no_sets ≡ ok t) × All (IsGrouped indexes t) wanted)
group_refs-IsAdmitted_example = group_refs-IsAdmitted indexes wanted no_sets

-- An on demand view of the feature `rate`, from the view `stats`.
abbrev doubled : OnDemandFeatureView
doubled = record {
  base = record stats.base {
    name = "doubled";
    projection = record stats.projection { name = "doubled" };
  };
  source_feature_view_projections = ("stats", stats.projection) ∷ [];
  source_request_sources = [];
  udf = record { fun_name = "double"; co_code = "" };
  udf_string = "";
}

abbrev asked : List String
asked = "doubled:rate" ∷ "stats:rate" ∷ []

group_feature_refs-IsAdmitted_example :
    All (IsAdmitted (indexes_of (stats ∷ []) [] (doubled ∷ []))) asked
    ↔ ((g : Grouped) × (group_feature_refs (λ xs. xs) asked (stats ∷ []) [] (doubled ∷ []) ≡ ok g))
unfolding any name_to_use or_else string_eq
group_feature_refs-IsAdmitted_example =
    group_feature_refs-IsAdmitted (λ xs. xs) asked (stats ∷ []) [] (doubled ∷ []) ((refl, tt), tt)
