-- ===== src/Registry/Lookup.antt =====
-- sdk/python/feast/infra/registry/proto_registry_utils.py: finding and listing what a registry message
-- holds, and the methods of the class `Registry` that do it on the cache or the store.
use feast.Base.{
  String, Bool, Option, none, some, List, [], ◌∷◌, Result, ok, err, Error, traverse, ◌==◌,
  string_eq, find_first, filter, entity_not_found, feature_view_not_found,
  feature_service_not_found, saved_dataset_not_found, validation_reference_not_found,
  data_source_object_not_found, attribute_error,
}
use feast.Proto.{Proto, matches, in_project}
use feast.Function.{Dill}
use feast.Entity
use feast.Entity.{Entity}
use feast.DataSource
use feast.DataSource.{DataSource}
use feast.FeatureView.{FeatureView}
use feast.FeatureView.Messages as FeatureViewMessages
use feast.FeatureView.Messages.{FeatureViewBody}
use feast.StreamFeatureView.{StreamFeatureView}
use feast.StreamFeatureView.Messages as StreamMessages
use feast.OnDemandFeatureView
use feast.OnDemandFeatureView.{OnDemandFeatureView}
use feast.RequestFeatureView
use feast.RequestFeatureView.{RequestFeatureView, RequestFeatureViewProto}
use feast.FeatureService
use feast.FeatureService.{FeatureService}
use feast.SavedDataset
use feast.SavedDataset.{SavedDataset, ValidationReference}
use feast.Registry.State.{ProjectMetadata, RegistryProto, Env, Action, lift, ◌>>=◌}
use feast.Registry.Cache.{get_registry_proto}

-- What a search found, or the exception.
abbrev pub found : {B : Type 0} → Error → Option (Proto B) → Result (Proto B)
found e none = err e
found e (some p) = ok p

-- The loop of every `get_*`: the first message with the name and the project, or the exception.
unfoldable pub get_proto :
    {B : Type 0} → Error → String → String → List (Proto B) → Result (Proto B)
unfolding find_first matches
get_proto e name project ps = found e (find_first (matches name project) ps)

-- The loop of every `list_*`: each message of the project is read.
unfoldable pub list_protos :
    {A B : Type 0} → (Proto B → Result A) → String → List (Proto B) → Result (List A)
unfolding filter in_project
list_protos read project ps = traverse read (filter (in_project project) ps)

-- The `>>=` of results, under the name of the call that it follows.
abbrev pub read_with : {A B : Type 0} → (B → Result A) → Result B → Result A
read_with read r = elim r [ ok p ↦ read p | err e ↦ err e ]

unfoldable pub get_entity : RegistryProto → String → String → Result Entity
get_entity r name project =
    read_with Entity.from_proto (get_proto (entity_not_found name project) name project r.entities)

unfoldable pub get_feature_view : RegistryProto → String → String → Result FeatureView
get_feature_view r name project =
    read_with FeatureViewMessages.from_proto
      (get_proto (feature_view_not_found name project) name project r.feature_views)

unfoldable pub get_data_source : RegistryProto → String → String → Result DataSource
get_data_source r name project =
    read_with (λ p. ok (DataSource.from_proto p))
      (get_proto (data_source_object_not_found name project) name project r.data_sources)

unfoldable pub get_feature_service : RegistryProto → String → String → Result FeatureService
get_feature_service r name project =
    read_with FeatureService.from_proto
      (get_proto (feature_service_not_found name project) name project r.feature_services)

unfoldable pub get_saved_dataset : RegistryProto → String → String → Result SavedDataset
get_saved_dataset r name project =
    read_with (λ p. ok (SavedDataset.from_proto p))
      (get_proto (saved_dataset_not_found name project) name project r.saved_datasets)

unfoldable pub get_validation_reference :
    RegistryProto → String → String → Result ValidationReference
get_validation_reference r name project =
    read_with (λ p. ok (SavedDataset.reference_from_proto p))
      (get_proto (validation_reference_not_found name project) name project r.validation_references)

module _ (dill : Dill) where
  unfoldable pub get_stream_feature_view :
      RegistryProto → String → String → Result StreamFeatureView
  get_stream_feature_view r name project =
      read_with (StreamMessages.from_proto dill)
        (get_proto (feature_view_not_found name project) name project r.stream_feature_views)

  unfoldable pub get_on_demand_feature_view :
      RegistryProto → String → String → Result OnDemandFeatureView
  get_on_demand_feature_view r name project =
      read_with (OnDemandFeatureView.from_proto dill)
        (get_proto (feature_view_not_found name project) name project r.on_demand_feature_views)

-- `get_request_feature_view` goes through `feature_views`. What it finds there has no field
-- `request_data_source`, which `RequestFeatureView.from_proto` reads first.
unfoldable pub get_request_feature_view :
    RegistryProto → String → String → Result RequestFeatureView
get_request_feature_view r name project =
    read_with (λ p. err attribute_error)
      (get_proto (feature_view_not_found name project) name project r.feature_views)

unfoldable pub list_entities : RegistryProto → String → Result (List Entity)
list_entities r project = list_protos Entity.from_proto project r.entities

unfoldable pub list_feature_views : RegistryProto → String → Result (List FeatureView)
list_feature_views r project = list_protos FeatureViewMessages.from_proto project r.feature_views

unfoldable pub list_request_feature_views :
    RegistryProto → String → Result (List RequestFeatureView)
list_request_feature_views r project =
    list_protos RequestFeatureView.from_proto project r.request_feature_views

unfoldable pub list_data_sources : RegistryProto → String → Result (List DataSource)
list_data_sources r project = list_protos (λ p. ok (DataSource.from_proto p)) project r.data_sources

unfoldable pub list_feature_services : RegistryProto → String → Result (List FeatureService)
list_feature_services r project = list_protos FeatureService.from_proto project r.feature_services

unfoldable pub list_validation_references :
    RegistryProto → String → Result (List ValidationReference)
list_validation_references r project =
    list_protos (λ p. ok (SavedDataset.reference_from_proto p)) project r.validation_references

-- `saved_dataset.project`: the message has `spec` and `meta` alone, so the first one raises.
unfoldable pub list_saved_datasets : RegistryProto → String → Result (List SavedDataset)
list_saved_datasets r project = elim r.saved_datasets [ [] ↦ ok [] | _ ∷ _ ↦ err attribute_error ]

unfoldable pub list_project_metadata : RegistryProto → String → List ProjectMetadata
unfolding filter
list_project_metadata r project =
    filter (λ (m : ProjectMetadata). m.project == project) r.project_metadata

module _ (dill : Dill) where
  unfoldable pub list_stream_feature_views :
      RegistryProto → String → Result (List StreamFeatureView)
  list_stream_feature_views r project =
      list_protos (StreamMessages.from_proto dill) project r.stream_feature_views

  unfoldable pub list_on_demand_feature_views :
      RegistryProto → String → Result (List OnDemandFeatureView)
  list_on_demand_feature_views r project =
      list_protos (OnDemandFeatureView.from_proto dill) project r.on_demand_feature_views

-- The methods `get_*(name, project, allow_cache)` and `list_*(project, allow_cache)` of `Registry`: the
-- message, cached or not, is handed to the function of the same name above.
unfoldable pub reading : {A : Type 0} → Env → String → Bool → (RegistryProto → Result A) → Action A
reading env project allow_cache read = do
  registry_proto ← get_registry_proto env (some project) allow_cache
  lift (read registry_proto)
