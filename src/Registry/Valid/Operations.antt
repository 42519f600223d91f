-- ===== src/Registry/Valid/Operations.antt =====
-- The methods of the class `Registry` (sdk/python/feast/infra/registry/registry.py) keep the invariant,
-- whether they return or raise, and so does every sequence of calls.
use feast.Base.{
  String, Bool, Option, none, some, List, [], ◌∷◌, ◌++◌, Result, ok, err, find_first, sym, subst,
}
use feast.Proto.{has_name, set_project}
use feast.Proto.Distinct.{
  delete_each-DistinctNames, delete_first-DistinctNames, find_name-delete_first,
  append-DistinctNames, DistinctNames,
}
use feast.Infra.{InfraProto}
use feast.Entity
use feast.Entity.{Entity}
use feast.DataSource
use feast.DataSource.{DataSource, DataSourceProto}
use feast.FeatureService
use feast.FeatureService.{FeatureService}
use feast.SavedDataset.{SavedDataset, ValidationReference}
use feast.Registry.State.{RegistryProto, Env, lift, cached_proto}
use feast.Registry.Cache.{prepare}
use feast.Registry.Writes.{
  remove, changed, entities, feature_services, saved_datasets, validation_references, finish, write,
  finish, update_infra, apply_entity, delete_entity, apply_data_source, delete_data_source,
  apply_feature_service, delete_feature_service, apply_saved_dataset, apply_validation_reference,
  delete_validation_reference, entity_change, data_source_change, stamped_service,
  feature_service_change, saved_dataset_change, validation_reference_change,
}
use feast.Registry.Valid.{
  IsValid, ValidIfAny, Outcome, Keeps, Anything, Keeps-pure, Keeps-lift, Keeps-bind,
  cached_proto-Keeps, put_cached-Keeps, utcnow-Keeps, when-commit-Keeps,
}
use feast.Registry.Valid.Prepared.{prepare-Keeps}
use feast.Registry.Valid.Fields.{
  entities-Keyed, feature_services-Keyed, saved_datasets-Keyed, validation_references-Keyed,
  replace-IsValid, replace_each-replace, remove-Outcome, Outcome-option,
}

-- A change of the message that keeps its invariant, or raises.
abbrev pub Sound : (RegistryProto → Result (Option RegistryProto)) → Type 0
Sound change = (r : RegistryProto) → IsValid r → Outcome ValidIfAny (change r)

pub changed-Outcome :
    (r : Result RegistryProto) → Outcome IsValid r → Outcome ValidIfAny (changed r)
changed-Outcome (ok r) h = h
changed-Outcome (err e) h = tt

any_outcome : {A : Type 0} (r : Result A) → Outcome Anything r
any_outcome (ok a) = tt
any_outcome (err e) = tt

pub sources_distinct : (r : RegistryProto) → IsValid r → DistinctNames r.data_sources
sources_distinct r h = let (_, _, ds, _, _, _, _, _, _, _) = h.parts in ds

with_sources-IsValid :
    (r : RegistryProto)
    → IsValid r
    → (ps : List DataSourceProto) → DistinctNames ps
    → IsValid (record r { data_sources = ps })
with_sources-IsValid r h ps d =
    let (es, fs, _, os, qs, ss, xs, ts, vs, ms) = h.parts in
    record { parts = (es, fs, d, os, qs, ss, xs, ts, vs, ms) }

-- A call that only computes.
pub Keeps-call : {A : Type 0} (r : Result A) → Keeps Anything (lift r)
Keeps-call r = Keeps-lift r (any_outcome r)

module _ (env : Env) where
  pub write-Keeps :
      (project : String) (change : RegistryProto → Result (Option RegistryProto)) (do_commit : Bool)
      → Sound change
      → Keeps Anything (write env project change do_commit)
  unfolding write
  write-Keeps project change do_commit sound =
      Keeps-bind (prepare env project) _ (prepare-Keeps env project) λ _ _.
        Keeps-bind cached_proto _ cached_proto-Keeps λ r valid.
          Keeps-bind (lift (change r)) _ (Keeps-lift (change r) (sound r valid))
            λ outcome good. go outcome good
    where
      go :
          (outcome : Option RegistryProto)
          → ValidIfAny outcome
          → Keeps Anything (finish env do_commit outcome)
      go none good = Keeps-pure tt tt
      go (some r') good =
          Keeps-bind _ _ (put_cached-Keeps r' good) λ _ _. when-commit-Keeps env do_commit

  pub apply_entity-Keeps :
      (entity : Entity) (project : String) (do_commit : Bool)
      → Keeps Anything (apply_entity env entity project do_commit)
  unfolding apply_entity
  apply_entity-Keeps entity project do_commit =
      Keeps-bind _ _ (Keeps-call (Entity.is_valid entity)) λ _ _.
        Keeps-bind _ _ (utcnow-Keeps env) λ now _.
          write-Keeps project (entity_change entity project now) do_commit
            λ r valid. replace-IsValid entities entities-Keyed r valid _

  pub delete_entity-Keeps :
      (name project : String) (do_commit : Bool)
      → Keeps Anything (delete_entity env name project do_commit)
  unfolding delete_entity
  delete_entity-Keeps name project do_commit = write-Keeps project _ do_commit λ r valid.
      changed-Outcome _ (remove-Outcome entities entities-Keyed r valid name project _ tt)

  pub apply_data_source-Keeps :
      (data_source : DataSource) (project : String) (do_commit : Bool)
      → Keeps Anything (apply_data_source env data_source project do_commit)
  unfolding apply_data_source DataSource.to_proto
  apply_data_source-Keeps data_source project do_commit =
      write-Keeps project (data_source_change data_source project) do_commit λ r valid.
        with_sources-IsValid r valid _ (
          subst
            (λ ps. DistinctNames (ps ++ set_project project (DataSource.to_proto data_source) ∷ []))
            (sym (
              delete_each-DistinctNames data_source.name r.data_sources (sources_distinct r valid)))
            (append-DistinctNames _ (set_project project (DataSource.to_proto data_source))
              (delete_first-DistinctNames data_source.name r.data_sources
                (sources_distinct r valid))
              (find_name-delete_first data_source.name r.data_sources (sources_distinct r valid))))

  pub delete_data_source-Keeps :
      (name project : String) (do_commit : Bool)
      → Keeps Anything (delete_data_source env name project do_commit)
  unfolding delete_data_source remove
  delete_data_source-Keeps name project do_commit = write-Keeps project _ do_commit λ r valid.
      changed-Outcome _ (
        Outcome-option _ (find_first (has_name name) r.data_sources) _ _ (λ _. tt)
          λ _ _.
            with_sources-IsValid r valid _
              (delete_first-DistinctNames name r.data_sources (sources_distinct r valid)))

  pub apply_feature_service-Keeps :
      (service : FeatureService) (project : String) (do_commit : Bool)
      → Keeps Anything (apply_feature_service env service project do_commit)
  unfolding apply_feature_service
  apply_feature_service-Keeps service project do_commit = Keeps-bind _ _ (utcnow-Keeps env) λ now _.
      Keeps-bind _ _ (Keeps-call (FeatureService.to_proto (stamped_service now service))) λ proto _.
        write-Keeps project (feature_service_change project proto) do_commit λ r valid.
          subst IsValid
            (sym (replace_each-replace feature_services feature_services-Keyed r valid _))
            (replace-IsValid feature_services feature_services-Keyed r valid _)

  pub delete_feature_service-Keeps :
      (name project : String) (do_commit : Bool)
      → Keeps Anything (delete_feature_service env name project do_commit)
  unfolding delete_feature_service
  delete_feature_service-Keeps name project do_commit = write-Keeps project _ do_commit λ r valid.
      changed-Outcome _
        (remove-Outcome feature_services feature_services-Keyed r valid name project _ tt)

  pub apply_saved_dataset-Keeps :
      (dataset : SavedDataset) (project : String) (do_commit : Bool)
      → Keeps Anything (apply_saved_dataset env dataset project do_commit)
  unfolding apply_saved_dataset
  apply_saved_dataset-Keeps dataset project do_commit = Keeps-bind _ _ (utcnow-Keeps env) λ now _.
      write-Keeps project (saved_dataset_change dataset project now) do_commit
        λ r valid. replace-IsValid saved_datasets saved_datasets-Keyed r valid _

  pub apply_validation_reference-Keeps :
      (reference : ValidationReference) (project : String) (do_commit : Bool)
      → Keeps Anything (apply_validation_reference env reference project do_commit)
  unfolding apply_validation_reference
  apply_validation_reference-Keeps reference project do_commit =
      write-Keeps project (validation_reference_change reference project) do_commit
        λ r valid. replace-IsValid validation_references validation_references-Keyed r valid _

  pub delete_validation_reference-Keeps :
      (name project : String) (do_commit : Bool)
      → Keeps Anything (delete_validation_reference env name project do_commit)
  unfolding delete_validation_reference
  delete_validation_reference-Keeps name project do_commit =
      write-Keeps project _ do_commit λ r valid.
        changed-Outcome _ (
          remove-Outcome validation_references validation_references-Keyed r valid name project _
            tt)

  pub update_infra-Keeps :
      (infra : InfraProto) (project : String) (do_commit : Bool)
      → Keeps Anything (update_infra env infra project do_commit)
  unfolding update_infra
  update_infra-Keeps infra project do_commit =
      write-Keeps project (λ r. ok (some (record r { infra = infra }))) do_commit
        λ r valid. record { parts = valid.parts }
