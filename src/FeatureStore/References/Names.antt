-- ===== src/FeatureStore/References/Names.antt =====
-- Names that may not be used twice, whatever their case: `_validate_feature_views` and
-- `_validate_data_sources` of sdk/python/feast/feature_store.py. `lower` is Python's `str.lower`.
use feast.Base.{
  ◌≡◌, ◌↔◌, refl, arith, String, true, false, ◌||◌, List, [], ◌∷◌, map, Result, ok, err,
  value_error, data_source_repeat_names, if◌then◌else◌, string_eq, any,
}
use feast.Base.Text.{str_concat}
use feast.BaseFeatureView.{BaseFeatureView}
use feast.DataSource.{DataSource}
use feast.FeatureView.{contains, all_distinct}

module _ (lower : String → String) where
  -- The loop of `_validate_feature_views`.
  unfoldable pub check_view_names : List String → List BaseFeatureView → Result (Unit {0})
  unfolding contains str_concat
  check_view_names fv_names [] = ok tt
  check_view_names fv_names (fv ∷ fvs) =
      let rest = check_view_names (lower fv.name ∷ fv_names) fvs in
      if contains fv_names (lower fv.name)
      then err (
          value_error (
            str_concat "More than one feature view with name " (
              str_concat (lower fv.name) (
                str_concat " found. " (
                  str_concat
                    "Please ensure that all feature view names are case-insensitively unique. "
                    "It may be necessary to ignore certain files in your feature repository by using a .feastignore file.")))))
      else rest

  -- `_validate_feature_views`
  unfoldable pub validate_feature_views : List BaseFeatureView → Result (Unit {0})
  unfolding check_view_names
  validate_feature_views feature_views = check_view_names [] feature_views

  -- The loop of `_validate_data_sources`.
  unfoldable pub check_source_names : List String → List DataSource → Result (Unit {0})
  unfolding contains
  check_source_names ds_names [] = ok tt
  check_source_names ds_names (ds ∷ dss) =
      let rest = check_source_names (lower ds.name ∷ ds_names) dss in
      if contains ds_names (lower ds.name)
      then err (data_source_repeat_names (lower ds.name))
      else rest

  -- `_validate_data_sources`
  unfoldable pub validate_data_sources : List DataSource → Result (Unit {0})
  unfolding check_source_names
  validate_data_sources data_sources = check_source_names [] data_sources

any_seen :
    (x : String) (seen names : List String)
    → any (contains (x ∷ seen)) names ≡ (contains names x || any (contains seen) names)
unfolding any contains
any_seen x seen [] = refl
any_seen x seen (y ∷ ys) = ground (arith, any_seen x seen ys)

module _ (lower : String → String) where
  abbrev pub lower_view_names : List BaseFeatureView → List String
  lower_view_names views = map (λ (v : BaseFeatureView). lower v.name) views

  abbrev pub lower_source_names : List DataSource → List String
  lower_source_names sources = map (λ (d : DataSource). lower d.name) sources

  check_view_names-all_distinct :
      (seen : List String) (views : List BaseFeatureView)
      → (check_view_names lower seen views ≡ ok tt) ↔ (
          (any (contains seen) (lower_view_names views) ≡ false)
          × (all_distinct (lower_view_names views) ≡ true))
  unfolding check_view_names all_distinct any
  check_view_names-all_distinct seen [] = ((λ _. (refl, refl)), λ _. refl)
  check_view_names-all_distinct seen (v ∷ vs) = ground (
    arith,
    any_seen (lower v.name) seen (lower_view_names vs),
    check_view_names-all_distinct (lower v.name ∷ seen) vs,
  )

  check_source_names-all_distinct :
      (seen : List String) (sources : List DataSource)
      → (check_source_names lower seen sources ≡ ok tt) ↔ (
          (any (contains seen) (lower_source_names sources) ≡ false)
          × (all_distinct (lower_source_names sources) ≡ true))
  unfolding check_source_names all_distinct any
  check_source_names-all_distinct seen [] = ((λ _. (refl, refl)), λ _. refl)
  check_source_names-all_distinct seen (d ∷ ds) = ground (
    arith,
    any_seen (lower d.name) seen (lower_source_names ds),
    check_source_names-all_distinct (lower d.name ∷ seen) ds,
  )

  none_seen : (names : List String) → any (contains []) names ≡ false
  unfolding any contains
  none_seen [] = refl
  none_seen (n ∷ ns) = none_seen ns

  -- Feature views pass the check of names exactly if their names, in lower case, are pairwise different, and
  -- so do data sources.
  pub validate_names-all_distinct :
      (views : List BaseFeatureView) (sources : List DataSource)
      → ((validate_feature_views lower views ≡ ok tt)
          ↔ (all_distinct (lower_view_names views) ≡ true))
        × ((validate_data_sources lower sources ≡ ok tt)
            ↔ (all_distinct (lower_source_names sources) ≡ true))
  unfolding validate_feature_views validate_data_sources
  validate_names-all_distinct views sources = ground (
    arith,
    none_seen (lower_view_names views),
    none_seen (lower_source_names sources),
    check_view_names-all_distinct [] views,
    check_source_names-all_distinct [] sources,
  )
