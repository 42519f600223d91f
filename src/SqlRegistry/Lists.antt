-- ===== src/SqlRegistry/Lists.antt =====
-- The listings from the tables, the deletions, the user metadata and the materializations of `SqlRegistry` of
-- sdk/python/feast/infra/registry/sql.py.
use feast.Base.{
  ℕ, ◌+◌, String, true, Option, none, some, List, [], ◌∷◌, ◌++◌, ok, err, Error, entity_not_found,
  feature_view_not_found, feature_service_not_found, validation_reference_not_found,
  data_source_object_not_found, value_error, require, not, ◌==◌, nat_eq,
}
use feast.Base.Text.{str_concat}
use feast.Entity.{Entity}
use feast.DataSource.{DataSource}
use feast.FeatureView.{FeatureView}
use feast.StreamFeatureView.{StreamFeatureView}
use feast.OnDemandFeatureView.{OnDemandFeatureView}
use feast.RequestFeatureView.{RequestFeatureView}
use feast.FeatureService.{FeatureService}
use feast.SavedDataset.{SavedDataset, ValidationReference}
use feast.Registry.FeatureViews.{AnyFeatureView, stream_view, view, on_demand_view, request_view}
use feast.FeatureStore.References.{add_element}
use feast.SqlRegistry.Tables.{
  SqlTable, entities, data_sources, feature_views, request_feature_views, stream_feature_views,
  on_demand_feature_views, feature_services, saved_datasets, validation_references, ObjectRow,
  has_key, named,
}
use feast.SqlRegistry.State.{Sql, SqlState, SqlAction, ◌>>=◌, pure, lift, utcnow}
use feast.SqlRegistry.Methods.{infer_fv_table, view_name}
use feast.SqlRegistry.Objects.{
  apply_object, get_object, list_objects, delete_object, delete_objects, first_object,
  update_objects,
}
use feast.SqlRegistry.Classes.{
  Codecs, entity_class, data_source_class, feature_view_class, stream_feature_view_class,
  on_demand_feature_view_class, request_feature_view_class, feature_service_class,
  saved_dataset_class, validation_reference_class,
}

module _ {B : Type 0} (sql : Sql B) (codecs : Codecs B) where
  unfoldable pub stored_entities : String → SqlAction sql (List Entity)
  unfolding list_objects
  stored_entities project = list_objects sql (entity_class codecs) entities project

  unfoldable pub stored_data_sources : String → SqlAction sql (List DataSource)
  unfolding list_objects
  stored_data_sources project = list_objects sql (data_source_class codecs) data_sources project

  unfoldable pub stored_feature_views : String → SqlAction sql (List FeatureView)
  unfolding list_objects
  stored_feature_views project = list_objects sql (feature_view_class codecs) feature_views project

  unfoldable pub stored_stream_feature_views : String → SqlAction sql (List StreamFeatureView)
  unfolding list_objects
  stored_stream_feature_views project =
      list_objects sql (stream_feature_view_class codecs) stream_feature_views project

  unfoldable pub stored_on_demand_feature_views : String → SqlAction sql (List OnDemandFeatureView)
  unfolding list_objects
  stored_on_demand_feature_views project =
      list_objects sql (on_demand_feature_view_class codecs) on_demand_feature_views project

  unfoldable pub stored_request_feature_views : String → SqlAction sql (List RequestFeatureView)
  unfolding list_objects
  stored_request_feature_views project =
      list_objects sql (request_feature_view_class codecs) request_feature_views project

  unfoldable pub stored_feature_services : String → SqlAction sql (List FeatureService)
  unfolding list_objects
  stored_feature_services project =
      list_objects sql (feature_service_class codecs) feature_services project

  unfoldable pub stored_saved_datasets : String → SqlAction sql (List SavedDataset)
  unfolding list_objects
  stored_saved_datasets project =
      list_objects sql (saved_dataset_class codecs) saved_datasets project

  unfoldable pub stored_validation_references : String → SqlAction sql (List ValidationReference)
  unfolding list_objects
  stored_validation_references project =
      list_objects sql (validation_reference_class codecs) validation_references project

  -- `delete_entity`, `delete_feature_service` and `delete_validation_reference`
  unfoldable pub delete_entity : String → String → SqlAction sql ℕ
  unfolding delete_object
  delete_entity name project = delete_object sql entities name project (some entity_not_found)

  unfoldable pub delete_feature_service : String → String → SqlAction sql ℕ
  unfolding delete_object
  delete_feature_service name project =
      delete_object sql feature_services name project (some feature_service_not_found)

  unfoldable pub delete_validation_reference : String → String → SqlAction sql ℕ
  unfolding delete_object
  delete_validation_reference name project =
      delete_object sql validation_references name project (some validation_reference_not_found)

  -- `delete_data_source` leaves the time of the last update alone.
  unfoldable pub delete_data_source : String → String → SqlAction sql (Unit {0})
  unfolding delete_objects ◌>>=◌ lift
  delete_data_source name project =
      delete_objects sql data_sources (has_key name project) >>= λ rowcount.
      lift (require (not (rowcount == 0)) (data_source_object_not_found name project))

  -- The loop of `delete_feature_view`.
  unfoldable pub delete_from : List SqlTable → String → String → ℕ → SqlAction sql ℕ
  unfolding delete_object ◌>>=◌ pure
  delete_from [] name project deleted_count = pure deleted_count
  delete_from (table ∷ tables) name project deleted_count =
      delete_object sql table name project none >>= λ rowcount.
      delete_from tables name project (deleted_count + rowcount)

  unfoldable pub delete_feature_view : String → String → SqlAction sql (Unit {0})
  unfolding delete_from ◌>>=◌ lift
  delete_feature_view name project =
      delete_from
        (sql.table_order (
          feature_views ∷ request_feature_views ∷ on_demand_feature_views ∷ stream_feature_views
          ∷ []))
        name project 0
      >>= λ deleted_count.
          lift (require (not (deleted_count == 0)) (feature_view_not_found name project))

  -- The statements of `teardown`.
  unfoldable pub delete_all : List SqlTable → SqlAction sql (Unit {0})
  unfolding delete_objects ◌>>=◌ pure
  delete_all [] = pure tt
  delete_all (table ∷ tables) = delete_objects sql table (λ _. true) >>= λ _. delete_all tables

  -- `teardown` walks eight of the tables.
  unfoldable pub teardown : SqlAction sql (Unit {0})
  unfolding delete_all
  teardown = delete_all (
      sql.table_order (
        entities ∷ data_sources ∷ feature_views ∷ feature_services ∷ on_demand_feature_views
        ∷ request_feature_views ∷ saved_datasets ∷ validation_references ∷ []))

  unfoldable pub apply_user_metadata : String → AnyFeatureView → Option B → SqlAction sql (Unit {0})
  unfolding first_object infer_fv_table ◌>>=◌ utcnow update_objects lift
  apply_user_metadata project feature_view metadata_bytes = do
    row ← first_object sql (infer_fv_table feature_view) (has_key (view_name feature_view) project)
    update_datetime ← utcnow
    elim row [
      | some r ↦
          update_objects sql (infer_fv_table feature_view)
            (has_key (view_name feature_view) project)
            (λ r. record r {
              user_metadata = metadata_bytes;
              last_updated_timestamp = sql.timestamp update_datetime;
            })
      | none ↦ lift (err (feature_view_not_found (view_name feature_view) project))
    ]

  -- `get_user_metadata` looks for the name alone.
  unfoldable pub get_user_metadata : String → AnyFeatureView → SqlAction sql (Option B)
  unfolding first_object infer_fv_table ◌>>=◌ pure lift
  get_user_metadata project feature_view =
      first_object sql (infer_fv_table feature_view) (named (view_name feature_view)) >>= λ row.
      elim row [
        | some r ↦ pure r.user_metadata
        | none ↦ lift (err (feature_view_not_found (view_name feature_view) project))
      ]

  abbrev materialized : FeatureView → ℕ → ℕ → FeatureView
  materialized fv start_date end_date = record fv {
    materialization_intervals = fv.materialization_intervals ++ (start_date, end_date) ∷ [];
  }

  unfoldable pub no_materialization : String → String → Error
  unfolding str_concat
  no_materialization name python_class = value_error (
      str_concat "Cannot apply materialization for feature "
        (str_concat name (str_concat " of type " python_class)))

  unfoldable pub apply_materialization : AnyFeatureView → String → ℕ → ℕ → SqlAction sql (Unit {0})
  unfolding get_object apply_object ◌>>=◌ lift no_materialization
  apply_materialization (view v) project start_date end_date =
      get_object sql (feature_view_class codecs) feature_views v.name project feature_view_not_found
      >>= λ fv.
          apply_object sql (feature_view_class codecs) feature_views project fv.name
            (materialized fv start_date end_date)
  apply_materialization (stream_view v) project start_date end_date =
      get_object sql (stream_feature_view_class codecs) stream_feature_views v.view.name project
        feature_view_not_found
      >>= λ fv.
          apply_object sql (stream_feature_view_class codecs) stream_feature_views project
            fv.view.name (record fv { view = materialized fv.view start_date end_date })
  apply_materialization (on_demand_view v) project start_date end_date =
      lift (
        err
          (no_materialization v.name "<class 'feast.on_demand_feature_view.OnDemandFeatureView'>"))
  apply_materialization (request_view v) project start_date end_date =
      lift
        (err (no_materialization v.name "<class 'feast.request_feature_view.RequestFeatureView'>"))

  unfoldable pub add_projects : List (ObjectRow B) → List String → List String
  unfolding add_element
  add_projects [] projects = projects
  add_projects (r ∷ rs) projects = add_projects rs (add_element r.project_id projects)

  unfoldable pub projects_in : List SqlTable → List String → SqlState sql → List String
  unfolding add_projects
  projects_in [] projects s = projects
  projects_in (table ∷ tables) projects s =
      projects_in tables (add_projects (sql.objects.select (λ _. true) (s.tables table)) projects) s

  -- `_get_all_projects`
  unfoldable pub get_all_projects : SqlAction sql (List String)
  unfolding projects_in
  get_all_projects s = (
    ok (
        projects_in
          (sql.table_order (
            entities ∷ data_sources ∷ feature_views ∷ request_feature_views
            ∷ on_demand_feature_views ∷ stream_feature_views ∷ []))
          [] s),
    s,
  )
