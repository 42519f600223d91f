-- ===== src/Registry/Writes.antt =====
-- The methods of the class `Registry` of sdk/python/feast/infra/registry/registry.py that change the
-- registry, but for those on feature views.
use feast.Base.{
  ℕ, String, Bool, false, Option, none, some, List, [], ◌∷◌, ◌++◌, Result, ok, err, find_first,
  delete_first, delete_each, entity_not_found, feature_service_not_found,
  validation_reference_not_found, data_source_not_found,
}
use feast.Proto.{Proto, matches, has_name, set_project}
use feast.Infra.{InfraProto}
use feast.Entity
use feast.Entity.{Entity}
use feast.DataSource
use feast.DataSource.{DataSource}
use feast.FeatureService
use feast.FeatureService.{FeatureService}
use feast.SavedDataset
use feast.SavedDataset.{SavedDataset, ValidationReference}
use feast.Registry.State.{
  RegistryProto, Env, Action, pure, lift, ◌>>=◌, ◌>>◌, when, cached_proto, put_cached, utcnow,
  commit,
}
use feast.Registry.Cache.{prepare, get_registry_proto}

-- A repeated field of the registry's message.
pub record Repeated (B : Type 0) : Type 0 where
  pub get : RegistryProto → List (Proto B)
  pub put : List (Proto B) → RegistryProto → RegistryProto

-- `for idx, p in enumerate(ps): if p matches: del ps[idx]; break`, and `ps.append(proto)`.
unfoldable pub replace : {B : Type 0} → Repeated B → Proto B → RegistryProto → RegistryProto
unfolding delete_first matches
replace field proto r =
    field.put (delete_first (matches proto.name proto.project) (field.get r) ++ proto ∷ []) r

-- The same loop without the `break`.
unfoldable pub replace_each : {B : Type 0} → Repeated B → Proto B → RegistryProto → RegistryProto
unfolding delete_each matches
replace_each field proto r =
    field.put (delete_each (matches proto.name proto.project) (field.get r) ++ proto ∷ []) r

-- `for idx, p in enumerate(ps): if p matches: del ps[idx]; …; return`, and what follows the loop.
unfoldable pub remove :
    {B : Type 0}
    → Repeated B
    → (Proto B → Bool)
    → RegistryProto
    → Result RegistryProto
    → Result RegistryProto
unfolding find_first delete_first
remove field p r otherwise = elim (find_first p (field.get r)) [
  | none ↦ otherwise
  | some _ ↦ ok (field.put (delete_first p (field.get r)) r)
]

abbrev pub entities : Repeated Entity.EntityBody
entities = record { get = λ r. r.entities; put = λ ps r. record r { entities = ps } }

abbrev pub data_sources : Repeated DataSource.DataSourceBody
data_sources = record { get = λ r. r.data_sources; put = λ ps r. record r { data_sources = ps } }

abbrev pub feature_services : Repeated FeatureService.FeatureServiceBody
feature_services = record {
  get = λ r. r.feature_services;
  put = λ ps r. record r { feature_services = ps };
}

abbrev pub saved_datasets : Repeated SavedDataset.SavedDatasetBody
saved_datasets = record {
  get = λ r. r.saved_datasets;
  put = λ ps r. record r { saved_datasets = ps };
}

abbrev pub validation_references : Repeated SavedDataset.ValidationReferenceBody
validation_references = record {
  get = λ r. r.validation_references;
  put = λ ps r. record r { validation_references = ps };
}

-- The outcome of a change that was made.
abbrev pub changed : {A : Type 0} → Result A → Result (Option A)
changed (ok a) = ok (some a)
changed (err e) = err e

-- `if not x.created_timestamp: x.created_timestamp = now`
abbrev pub created_at : ℕ → Option ℕ → Option ℕ
created_at now none = some now
created_at now (some t) = some t

abbrev pub stamped_entity : ℕ → Entity → Entity
stamped_entity now entity = record entity {
  created_timestamp = created_at now entity.created_timestamp;
  last_updated_timestamp = some now;
}

-- What `apply_entity`, and the methods below it, do to the message once the clock has been read.
unfoldable pub entity_change : Entity → String → ℕ → RegistryProto → Result (Option RegistryProto)
unfolding replace
entity_change entity project now r =
    ok (
      some (replace entities (set_project project (Entity.to_proto (stamped_entity now entity))) r))

-- Data sources are found by their name alone, and the loop goes on after a deletion.
unfoldable pub data_source_change :
    DataSource → String → RegistryProto → Result (Option RegistryProto)
unfolding delete_each has_name
data_source_change data_source project r = ok (
    some (record r {
      data_sources =
          delete_each (has_name data_source.name) r.data_sources
          ++ set_project project (DataSource.to_proto data_source) ∷ [];
    }))

abbrev pub stamped_service : ℕ → FeatureService → FeatureService
stamped_service now service = record service {
  created_timestamp = created_at now service.created_timestamp;
  last_updated_timestamp = some now;
}

unfoldable pub feature_service_change :
    String → FeatureService.FeatureServiceProto → RegistryProto → Result (Option RegistryProto)
unfolding replace_each
feature_service_change project proto r =
    ok (some (replace_each feature_services (set_project project proto) r))

abbrev pub stamped_dataset : ℕ → SavedDataset → SavedDataset
stamped_dataset now dataset = record dataset {
  created_timestamp = created_at now dataset.created_timestamp;
  last_updated_timestamp = some now;
}

unfoldable pub saved_dataset_change :
    SavedDataset → String → ℕ → RegistryProto → Result (Option RegistryProto)
unfolding replace
saved_dataset_change dataset project now r = ok (
    some (
      replace saved_datasets
        (set_project project (SavedDataset.to_proto (stamped_dataset now dataset))) r))

unfoldable pub validation_reference_change :
    ValidationReference → String → RegistryProto → Result (Option RegistryProto)
unfolding replace
validation_reference_change reference project r = ok (
    some (
      replace validation_references
        (set_project project (SavedDataset.reference_to_proto reference)) r))

module _ (env : Env) where
  -- The changed message is cached, and committed if that is asked for. At `none`, nothing changed.
  unfoldable pub finish : Bool → Option RegistryProto → Action (Unit {0})
  unfolding put_cached commit
  finish do_commit none = pure tt
  finish do_commit (some r) = do put_cached r; when do_commit (commit env)

  -- What every change has in common: the registry is prepared; the change is made on the cached
  -- message, unless it raises or, at `none`, finds nothing to change; and then it is committed.
  unfoldable pub write :
      String → (RegistryProto → Result (Option RegistryProto)) → Bool → Action (Unit {0})
  unfolding prepare cached_proto finish
  write project change do_commit = do
    prepare env project
    r ← cached_proto
    outcome ← lift (change r)
    finish do_commit outcome

  unfoldable pub update_infra : InfraProto → String → Bool → Action (Unit {0})
  unfolding write
  update_infra infra project do_commit =
      write project (λ r. ok (some (record r { infra = infra }))) do_commit

  unfoldable pub apply_entity : Entity → String → Bool → Action (Unit {0})
  unfolding utcnow Entity.is_valid entity_change write
  apply_entity entity project do_commit = do
    lift (Entity.is_valid entity)
    now ← utcnow env
    write project (entity_change entity project now) do_commit

  unfoldable pub delete_entity : String → String → Bool → Action (Unit {0})
  unfolding remove write
  delete_entity name project do_commit =
      write project
        (λ r.
          changed (remove entities (matches name project) r (err (entity_not_found name project))))
        do_commit

  unfoldable pub apply_data_source : DataSource → String → Bool → Action (Unit {0})
  unfolding data_source_change write
  apply_data_source data_source project do_commit =
      write project (data_source_change data_source project) do_commit

  unfoldable pub delete_data_source : String → String → Bool → Action (Unit {0})
  unfolding remove write
  delete_data_source name project do_commit =
      write project
        (λ r. changed (remove data_sources (has_name name) r (err (data_source_not_found name))))
        do_commit

  unfoldable pub apply_feature_service : FeatureService → String → Bool → Action (Unit {0})
  unfolding utcnow feature_service_change write
  apply_feature_service service project do_commit = do
    now ← utcnow env
    proto ← lift (FeatureService.to_proto (stamped_service now service))
    write project (feature_service_change project proto) do_commit

  unfoldable pub delete_feature_service : String → String → Bool → Action (Unit {0})
  unfolding remove write
  delete_feature_service name project do_commit =
      write project
        (λ r. changed (
          remove feature_services (matches name project) r
            (err (feature_service_not_found name project))))
        do_commit

  unfoldable pub apply_saved_dataset : SavedDataset → String → Bool → Action (Unit {0})
  unfolding utcnow saved_dataset_change write
  apply_saved_dataset dataset project do_commit = do
    now ← utcnow env
    write project (saved_dataset_change dataset project now) do_commit

  unfoldable pub apply_validation_reference :
      ValidationReference → String → Bool → Action (Unit {0})
  unfolding validation_reference_change write
  apply_validation_reference reference project do_commit =
      write project (validation_reference_change reference project) do_commit

  unfoldable pub delete_validation_reference : String → String → Bool → Action (Unit {0})
  unfolding remove write
  delete_validation_reference name project do_commit =
      write project
        (λ r. changed (
          remove validation_references (matches name project) r
            (err (validation_reference_not_found name project))))
        do_commit

  -- `Registry.refresh`
  unfoldable pub refresh : Option String → Action (Unit {0})
  unfolding get_registry_proto
  refresh project = do get_registry_proto env project false; pure tt
