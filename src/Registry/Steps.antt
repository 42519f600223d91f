-- ===== src/Registry/Steps.antt =====
-- Sequences of calls on an object of the class `Registry`
-- (sdk/python/feast/infra/registry/registry.py), as a relation on its states.
use feast.Base.{ℕ, String, Bool, Option, some}
use feast.Infra.{InfraProto}
use feast.Entity.{Entity}
use feast.DataSource.{DataSource}
use feast.FeatureService.{FeatureService}
use feast.SavedDataset.{SavedDataset, ValidationReference}
use feast.Registry.State.{Env, State, Action, ◌>>◌, pure, commit, store_teardown}
use feast.Registry.Cache.{get_registry_proto}
use feast.Registry.Writes.{
  update_infra, apply_entity, delete_entity, apply_data_source, delete_data_source,
  apply_feature_service, delete_feature_service, apply_saved_dataset, apply_validation_reference,
  delete_validation_reference, refresh,
}
use feast.Registry.FeatureViews.{
  AnyFeatureView, apply_feature_view, delete_feature_view, apply_materialization,
}

-- A call of a method, with its arguments. The methods `get_*` and `list_*` change the state only by
-- `_get_registry_proto`, and are one constructor.
pub data Call : Type 0 where
  applies_entity : Entity → String → Bool → Call
  deletes_entity : String → String → Bool → Call
  applies_data_source : DataSource → String → Bool → Call
  deletes_data_source : String → String → Bool → Call
  applies_feature_service : FeatureService → String → Bool → Call
  deletes_feature_service : String → String → Bool → Call
  applies_feature_view : AnyFeatureView → String → Bool → Call
  deletes_feature_view : String → String → Bool → Call
  applies_materialization : String → String → ℕ → ℕ → Bool → Call
  applies_saved_dataset : SavedDataset → String → Bool → Call
  applies_validation_reference : ValidationReference → String → Bool → Call
  deletes_validation_reference : String → String → Bool → Call
  updates_infra : InfraProto → String → Bool → Call
  refreshes : Option String → Call
  reads : String → Bool → Call
  commits : Call
  tears_down : Call

module _ (env : Env) where
  unfoldable pub perform : Call → Action (Unit {0})
  unfolding apply_entity get_registry_proto commit store_teardown
  perform (applies_entity entity project b) = apply_entity env entity project b
  perform (deletes_entity name project b) = delete_entity env name project b
  perform (applies_data_source source project b) = apply_data_source env source project b
  perform (deletes_data_source name project b) = delete_data_source env name project b
  perform (applies_feature_service service project b) = apply_feature_service env service project b
  perform (deletes_feature_service name project b) = delete_feature_service env name project b
  perform (applies_feature_view v project b) = apply_feature_view env v project b
  perform (deletes_feature_view name project b) = delete_feature_view env name project b
  perform (applies_materialization name project start_date end_date b) =
      apply_materialization env name project start_date end_date b
  perform (applies_saved_dataset dataset project b) = apply_saved_dataset env dataset project b
  perform (applies_validation_reference reference project b) =
      apply_validation_reference env reference project b
  perform (deletes_validation_reference name project b) =
      delete_validation_reference env name project b
  perform (updates_infra infra project b) = update_infra env infra project b
  perform (refreshes project) = refresh env project
  perform (reads project allow_cache) = do
    get_registry_proto env (some project) allow_cache
    pure tt
  perform commits = commit env
  perform tears_down = store_teardown env

  -- `Reachable s t`: calls, each of which returned or raised, lead from `s` to `t`.
  pub data Reachable (s : State) : State → Type 0 where
    start : Reachable s s
    then_call : {t : State} → Reachable s t → (call : Call) → Reachable s (perform call t).1
