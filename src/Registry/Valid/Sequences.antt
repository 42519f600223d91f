-- ===== src/Registry/Valid/Sequences.antt =====
-- Every sequence of calls of the methods of `Registry` (sdk/python/feast/infra/registry/registry.py)
-- keeps the invariant.
use feast.Base.{Option, some, String, Bool, false}
use feast.Registry.State.{Env, State, ◌>>◌, pure, store_teardown}
use feast.Registry.Cache.{get_registry_proto}
use feast.Registry.Writes.{refresh}
use feast.Registry.Steps.{
  Call, applies_entity, deletes_entity, applies_data_source, deletes_data_source,
  applies_feature_service, deletes_feature_service, applies_feature_view, deletes_feature_view,
  applies_materialization, applies_saved_dataset, applies_validation_reference,
  deletes_validation_reference, updates_infra, refreshes, reads, commits, tears_down, perform,
  Reachable, start, then_call,
}
use feast.Registry.Valid.{StateValid, Keeps, Anything, Keeps-bind, Keeps-pure, commit-Keeps}
use feast.Registry.Valid.Prepared.{get_registry_proto-Keeps}
use feast.Registry.Valid.Operations.{
  apply_entity-Keeps, delete_entity-Keeps, apply_data_source-Keeps, delete_data_source-Keeps,
  apply_feature_service-Keeps, delete_feature_service-Keeps, apply_saved_dataset-Keeps,
  apply_validation_reference-Keeps, delete_validation_reference-Keeps, update_infra-Keeps,
}
use feast.Registry.Valid.Views.{
  apply_feature_view-Keeps, delete_feature_view-Keeps, apply_materialization-Keeps,
}

module _ (env : Env) where
  store_teardown-Keeps : Keeps Anything (store_teardown env)
  unfolding store_teardown
  store_teardown-Keeps = record { at = λ s v. ((v.0, tt), tt) }

  refresh-Keeps : (project : Option String) → Keeps Anything (refresh env project)
  unfolding refresh
  refresh-Keeps project =
      Keeps-bind _ _ (get_registry_proto-Keeps env project false) λ _ _. Keeps-pure tt tt

  read-Keeps :
      (project : String) (allow_cache : Bool)
      → Keeps Anything (do get_registry_proto env (some project) allow_cache; pure tt)
  read-Keeps project allow_cache =
      Keeps-bind _ _ (get_registry_proto-Keeps env (some project) allow_cache)
        λ _ _. Keeps-pure tt tt

  perform-Keeps : (call : Call) → Keeps Anything (perform env call)
  unfolding perform
  perform-Keeps (applies_entity entity project b) = apply_entity-Keeps env entity project b
  perform-Keeps (deletes_entity name project b) = delete_entity-Keeps env name project b
  perform-Keeps (applies_data_source source project b) =
      apply_data_source-Keeps env source project b
  perform-Keeps (deletes_data_source name project b) = delete_data_source-Keeps env name project b
  perform-Keeps (applies_feature_service service project b) =
      apply_feature_service-Keeps env service project b
  perform-Keeps (deletes_feature_service name project b) =
      delete_feature_service-Keeps env name project b
  perform-Keeps (applies_feature_view v project b) = apply_feature_view-Keeps env v project b
  perform-Keeps (deletes_feature_view name project b) = delete_feature_view-Keeps env name project b
  perform-Keeps (applies_materialization name project start_date end_date b) =
      apply_materialization-Keeps env name project start_date end_date b
  perform-Keeps (applies_saved_dataset dataset project b) =
      apply_saved_dataset-Keeps env dataset project b
  perform-Keeps (applies_validation_reference reference project b) =
      apply_validation_reference-Keeps env reference project b
  perform-Keeps (deletes_validation_reference name project b) =
      delete_validation_reference-Keeps env name project b
  perform-Keeps (updates_infra infra project b) = update_infra-Keeps env infra project b
  perform-Keeps (refreshes project) = refresh-Keeps project
  perform-Keeps (reads project allow_cache) = read-Keeps project allow_cache
  perform-Keeps commits = commit-Keeps env
  perform-Keeps tears_down = store_teardown-Keeps

  -- From a state in which the cached message and the stored one, if any, have at most one object of
  -- each kind under a name and a project (at most one data source under a name, and one entry for a
  -- project), every sequence of calls of the registry's methods, whether they return or raise, leads
  -- to such a state.
  pub reachable-StateValid : (s t : State) → Reachable env s t → StateValid s → StateValid t
  reachable-StateValid s _ start v = v
  reachable-StateValid s _ (then_call steps call) v =
      ((perform-Keeps call).at _ (reachable-StateValid s _ steps v)).0
