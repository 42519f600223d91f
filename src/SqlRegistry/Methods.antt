-- ===== src/SqlRegistry/Methods.antt =====
-- The methods of `SqlRegistry` of sdk/python/feast/infra/registry/sql.py that write an object.
use feast.Base.{String, none, some, [], nat_eq}
use feast.Entity.{Entity}
use feast.DataSource.{DataSource}
use feast.FeatureService.{FeatureService}
use feast.SavedDataset.{SavedDataset, ValidationReference}
use feast.Infra.{InfraProto}
use feast.Registry.FeatureViews.{AnyFeatureView, stream_view, view, on_demand_view, request_view}
use feast.SqlRegistry.Tables.{
  SqlTable, entities, data_sources, feature_views, request_feature_views, stream_feature_views,
  on_demand_feature_views, feature_services, saved_datasets, validation_references, managed_infra,
}
use feast.SqlRegistry.State.{Sql, SqlAction, ◌>>=◌, pure}
use feast.SqlRegistry.Objects.{apply_object, find_object}
use feast.SqlRegistry.Classes.{
  Codecs, entity_class, data_source_class, feature_view_class, stream_feature_view_class,
  on_demand_feature_view_class, request_feature_view_class, feature_service_class,
  saved_dataset_class, validation_reference_class, infra_class,
}

-- `_infer_fv_table` chooses the table by the class of the view.
unfoldable pub infer_fv_table : AnyFeatureView → SqlTable
infer_fv_table (stream_view v) = stream_feature_views
infer_fv_table (view v) = feature_views
infer_fv_table (on_demand_view v) = on_demand_feature_views
infer_fv_table (request_view v) = request_feature_views

abbrev pub view_name : AnyFeatureView → String
view_name (stream_view v) = v.view.name
view_name (view v) = v.name
view_name (on_demand_view v) = v.name
view_name (request_view v) = v.name

module _ {B : Type 0} (sql : Sql B) (codecs : Codecs B) where
  unfoldable pub apply_entity : Entity → String → SqlAction sql (Unit {0})
  unfolding apply_object
  apply_entity entity project =
      apply_object sql (entity_class codecs) entities project entity.name entity

  unfoldable pub apply_data_source : DataSource → String → SqlAction sql (Unit {0})
  unfolding apply_object
  apply_data_source data_source project =
      apply_object sql (data_source_class codecs) data_sources project data_source.name data_source

  unfoldable pub apply_feature_view : AnyFeatureView → String → SqlAction sql (Unit {0})
  unfolding apply_object
  apply_feature_view (stream_view v) project =
      apply_object sql (stream_feature_view_class codecs) stream_feature_views project v.view.name v
  apply_feature_view (view v) project =
      apply_object sql (feature_view_class codecs) feature_views project v.name v
  apply_feature_view (on_demand_view v) project =
      apply_object sql (on_demand_feature_view_class codecs) on_demand_feature_views project v.name
        v
  apply_feature_view (request_view v) project =
      apply_object sql (request_feature_view_class codecs) request_feature_views project v.name v

  unfoldable pub apply_feature_service : FeatureService → String → SqlAction sql (Unit {0})
  unfolding apply_object
  apply_feature_service service project =
      apply_object sql (feature_service_class codecs) feature_services project service.name service

  unfoldable pub apply_saved_dataset : SavedDataset → String → SqlAction sql (Unit {0})
  unfolding apply_object
  apply_saved_dataset dataset project =
      apply_object sql (saved_dataset_class codecs) saved_datasets project dataset.name dataset

  unfoldable pub apply_validation_reference :
      ValidationReference → String → SqlAction sql (Unit {0})
  unfolding apply_object
  apply_validation_reference reference project =
      apply_object sql (validation_reference_class codecs) validation_references project
        reference.name reference

  unfoldable pub update_infra : InfraProto → String → SqlAction sql (Unit {0})
  unfolding apply_object
  update_infra infra project =
      apply_object sql (infra_class codecs) managed_infra project "infra_obj" infra

  unfoldable pub get_infra : String → SqlAction sql InfraProto
  unfolding find_object ◌>>=◌ pure
  get_infra project =
      find_object sql (infra_class codecs) managed_infra "infra_obj" project >>= λ i.
      pure (elim i [ none ↦ record { infra_objects = [] } | some infra ↦ infra ])
