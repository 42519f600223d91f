-- ===== src/SqlRegistry/Lookups.antt =====
-- The lookups and listings of `SqlRegistry` of sdk/python/feast/infra/registry/sql.py, in the cached message or
-- in the tables.
use feast.Base.{
  Bool, String, List, ok, entity_not_found, feature_view_not_found, feature_service_not_found,
  validation_reference_not_found, data_source_object_not_found, nat_eq, saved_dataset_not_found,
}
use feast.Entity.{Entity}
use feast.DataSource.{DataSource}
use feast.FeatureView.{FeatureView}
use feast.StreamFeatureView.{StreamFeatureView}
use feast.OnDemandFeatureView.{OnDemandFeatureView}
use feast.RequestFeatureView.{RequestFeatureView}
use feast.FeatureService.{FeatureService}
use feast.SavedDataset.{SavedDataset, ValidationReference}
use feast.Registry.State.{ProjectMetadata}
use feast.Registry.Lookup
use feast.SqlRegistry.Cache.{reading, stored_project_metadata}
use feast.SqlRegistry.Lists.{
  stored_entities, stored_data_sources, stored_feature_views, stored_stream_feature_views,
  stored_on_demand_feature_views, stored_request_feature_views, stored_feature_services,
  stored_saved_datasets, stored_validation_references,
}
use feast.SqlRegistry.Tables.{
  entities, data_sources, feature_views, request_feature_views, stream_feature_views,
  on_demand_feature_views, feature_services, saved_datasets, validation_references,
}
use feast.SqlRegistry.State.{Sql, SqlAction}
use feast.SqlRegistry.Objects.{get_object}
use feast.SqlRegistry.Classes.{
  Codecs, entity_class, data_source_class, feature_view_class, stream_feature_view_class,
  on_demand_feature_view_class, request_feature_view_class, feature_service_class,
  saved_dataset_class, validation_reference_class,
}

module _ {B : Type 0} (sql : Sql B) (codecs : Codecs B) where
  unfoldable pub get_entity : String → String → Bool → SqlAction sql Entity
  unfolding reading get_object
  get_entity name project allow_cache =
      reading sql codecs allow_cache (λ r. Lookup.get_entity r name project)
        (get_object sql (entity_class codecs) entities name project entity_not_found)

  unfoldable pub list_entities : String → Bool → SqlAction sql (List Entity)
  unfolding reading stored_entities
  list_entities project allow_cache =
      reading sql codecs allow_cache (λ r. Lookup.list_entities r project)
        (stored_entities sql codecs project)

  unfoldable pub get_data_source : String → String → Bool → SqlAction sql DataSource
  unfolding reading get_object
  get_data_source name project allow_cache =
      reading sql codecs allow_cache (λ r. Lookup.get_data_source r name project)
        (get_object sql (data_source_class codecs) data_sources name project
          data_source_object_not_found)

  unfoldable pub list_data_sources : String → Bool → SqlAction sql (List DataSource)
  unfolding reading stored_data_sources
  list_data_sources project allow_cache =
      reading sql codecs allow_cache (λ r. Lookup.list_data_sources r project)
        (stored_data_sources sql codecs project)

  unfoldable pub get_feature_view : String → String → Bool → SqlAction sql FeatureView
  unfolding reading get_object
  get_feature_view name project allow_cache =
      reading sql codecs allow_cache (λ r. Lookup.get_feature_view r name project)
        (get_object sql (feature_view_class codecs) feature_views name project
          feature_view_not_found)

  unfoldable pub list_feature_views : String → Bool → SqlAction sql (List FeatureView)
  unfolding reading stored_feature_views
  list_feature_views project allow_cache =
      reading sql codecs allow_cache (λ r. Lookup.list_feature_views r project)
        (stored_feature_views sql codecs project)

  unfoldable pub get_stream_feature_view : String → String → Bool → SqlAction sql StreamFeatureView
  unfolding reading get_object
  get_stream_feature_view name project allow_cache =
      reading sql codecs allow_cache
        (λ r. Lookup.get_stream_feature_view codecs.dill r name project)
        (get_object sql (stream_feature_view_class codecs) stream_feature_views name project
          feature_view_not_found)

  unfoldable pub list_stream_feature_views : String → Bool → SqlAction sql (List StreamFeatureView)
  unfolding reading stored_stream_feature_views
  list_stream_feature_views project allow_cache =
      reading sql codecs allow_cache (λ r. Lookup.list_stream_feature_views codecs.dill r project)
        (stored_stream_feature_views sql codecs project)

  unfoldable pub get_on_demand_feature_view :
      String → String → Bool → SqlAction sql OnDemandFeatureView
  unfolding reading get_object
  get_on_demand_feature_view name project allow_cache =
      reading sql codecs allow_cache
        (λ r. Lookup.get_on_demand_feature_view codecs.dill r name project)
        (get_object sql (on_demand_feature_view_class codecs) on_demand_feature_views name project
          feature_view_not_found)

  unfoldable pub list_on_demand_feature_views :
      String → Bool → SqlAction sql (List OnDemandFeatureView)
  unfolding reading stored_on_demand_feature_views
  list_on_demand_feature_views project allow_cache =
      reading sql codecs allow_cache
        (λ r. Lookup.list_on_demand_feature_views codecs.dill r project)
        (stored_on_demand_feature_views sql codecs project)

  unfoldable pub get_request_feature_view :
      String → String → Bool → SqlAction sql RequestFeatureView
  unfolding reading get_object
  get_request_feature_view name project allow_cache =
      reading sql codecs allow_cache (λ r. Lookup.get_request_feature_view r name project)
        (get_object sql (request_feature_view_class codecs) request_feature_views name project
          feature_view_not_found)

  unfoldable pub list_request_feature_views :
      String → Bool → SqlAction sql (List RequestFeatureView)
  unfolding reading stored_request_feature_views
  list_request_feature_views project allow_cache =
      reading sql codecs allow_cache (λ r. Lookup.list_request_feature_views r project)
        (stored_request_feature_views sql codecs project)

  unfoldable pub get_feature_service : String → String → Bool → SqlAction sql FeatureService
  unfolding reading get_object
  get_feature_service name project allow_cache =
      reading sql codecs allow_cache (λ r. Lookup.get_feature_service r name project)
        (get_object sql (feature_service_class codecs) feature_services name project
          feature_service_not_found)

  unfoldable pub list_feature_services : String → Bool → SqlAction sql (List FeatureService)
  unfolding reading stored_feature_services
  list_feature_services project allow_cache =
      reading sql codecs allow_cache (λ r. Lookup.list_feature_services r project)
        (stored_feature_services sql codecs project)

  unfoldable pub get_saved_dataset : String → String → Bool → SqlAction sql SavedDataset
  unfolding reading get_object
  get_saved_dataset name project allow_cache =
      reading sql codecs allow_cache (λ r. Lookup.get_saved_dataset r name project)
        (get_object sql (saved_dataset_class codecs) saved_datasets name project
          saved_dataset_not_found)

  unfoldable pub list_saved_datasets : String → Bool → SqlAction sql (List SavedDataset)
  unfolding reading stored_saved_datasets
  list_saved_datasets project allow_cache =
      reading sql codecs allow_cache (λ r. Lookup.list_saved_datasets r project)
        (stored_saved_datasets sql codecs project)

  unfoldable pub get_validation_reference :
      String → String → Bool → SqlAction sql ValidationReference
  unfolding reading get_object
  get_validation_reference name project allow_cache =
      reading sql codecs allow_cache (λ r. Lookup.get_validation_reference r name project)
        (get_object sql (validation_reference_class codecs) validation_references name project
          validation_reference_not_found)

  unfoldable pub list_validation_references :
      String → Bool → SqlAction sql (List ValidationReference)
  unfolding reading stored_validation_references
  list_validation_references project allow_cache =
      reading sql codecs allow_cache (λ r. Lookup.list_validation_references r project)
        (stored_validation_references sql codecs project)

  unfoldable pub list_project_metadata : String → Bool → SqlAction sql (List ProjectMetadata)
  unfolding reading stored_project_metadata
  list_project_metadata project allow_cache =
      reading sql codecs allow_cache (λ r. ok (Lookup.list_project_metadata r project))
        (stored_project_metadata sql codecs project)
