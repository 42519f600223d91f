-- ===== src/SqlRegistry/Cache.antt =====
-- The cache of `SqlRegistry` of sdk/python/feast/infra/registry/sql.py: `proto`, which writes the tables as one
-- message, `refresh` and `_refresh_cached_registry_if_necessary`.
use feast.Base.{
  Result, Bool, map, traverse, ltb, zero, suc, ◌*◌, type_error, attribute_error, string_eq,
  if◌then◌else◌, ℕ, ◌+◌, String, true, Option, none, some, List, [], ◌∷◌, ◌++◌, ok, err,
  value_error, require, not, ◌==◌, nat_eq, false,
}
use feast.Proto.{Proto, set_project}
use feast.Registry.State.{RegistryProto, ProjectMetadata, empty_registry}
use feast.Registry.Cache.{get_project_metadata}
use feast.SqlRegistry.Methods.{get_infra}
use feast.SqlRegistry.Lists.{get_all_projects}
use feast.SqlRegistry.Tables.{
  MetadataRow, SqlTable, entities, data_sources, feature_views, request_feature_views,
  stream_feature_views, on_demand_feature_views, feature_services, saved_datasets,
  validation_references,
}
use feast.SqlRegistry.State.{uuid4, Sql, SqlAction, ◌>>=◌, pure, lift, utcnow}
use feast.SqlRegistry.Objects.{Class, project_uuid, get_last_updated_metadata, list_objects}
use feast.SqlRegistry.Classes.{
  Codecs, entity_class, data_source_class, feature_view_class, stream_feature_view_class,
  on_demand_feature_view_class, request_feature_view_class, feature_service_class,
  saved_dataset_class, validation_reference_class,
}

-- `max` of a list of times, and `FromDatetime`: `None` has no order and no attributes.
unfoldable pub latest : ℕ → List (Option ℕ) → Result ℕ
latest t [] = ok t
latest t (none ∷ ts) = err type_error
latest t (some u ∷ ts) = if ltb t u then latest u ts else latest t ts

unfoldable pub max_time : Option ℕ → List (Option ℕ) → Result ℕ
unfolding latest
max_time none [] = err attribute_error
max_time none (t ∷ ts) = err type_error
max_time (some t) ts = latest t ts

module _ {B : Type 0} (sql : Sql B) (codecs : Codecs B) where
  -- The messages of the objects of a project, with the project in them.
  unfoldable pub project_protos :
      {O Body : Type 0}
      → Class B O (Proto Body)
      → SqlTable
      → String
      → SqlAction sql (List (Proto Body))
  unfolding list_objects ◌>>=◌ lift
  project_protos cls table project = list_objects sql cls table project >>= λ objs.
      lift (traverse cls.to_proto objs) >>= λ obj_protos.
      λ s. (ok (map (set_project project) obj_protos), s)

  -- The uuid of the first row that has one; the constructor has drawn another one before.
  unfoldable pub uuid_of : String → List MetadataRow → String
  uuid_of drawn [] = drawn
  uuid_of drawn (r ∷ rs) =
      if r.metadata_key == project_uuid then r.metadata_value else uuid_of drawn rs

  unfoldable pub metadata_of : String → List MetadataRow → SqlAction sql (List ProjectMetadata)
  unfolding ◌>>=◌ lift uuid4 pure uuid_of
  metadata_of project [] = pure []
  metadata_of project (r ∷ rs) =
      lift (require (not (project == "")) (value_error "Project name needs to be specified"))
      >>= λ _. uuid4 >>= λ drawn.
          pure (record { project = project; project_uuid = uuid_of drawn (r ∷ rs) } ∷ [])

  -- `list_project_metadata` from the table.
  unfoldable pub stored_project_metadata : String → SqlAction sql (List ProjectMetadata)
  unfolding metadata_of
  stored_project_metadata project s =
      metadata_of project (sql.metadata.select (λ r. r.project_id == project) s.feast_metadata) s

  -- The body of the loop of `proto` over the projects.
  unfoldable pub add_to_proto : String → RegistryProto → SqlAction sql (RegistryProto × Option ℕ)
  unfolding project_protos stored_project_metadata get_infra get_last_updated_metadata ◌>>=◌ pure
  add_to_proto project r = do
    es ← project_protos (entity_class codecs) entities project
    fvs ← project_protos (feature_view_class codecs) feature_views project
    dss ← project_protos (data_source_class codecs) data_sources project
    odfvs ← project_protos (on_demand_feature_view_class codecs) on_demand_feature_views project
    rfvs ← project_protos (request_feature_view_class codecs) request_feature_views project
    sfvs ← project_protos (stream_feature_view_class codecs) stream_feature_views project
    fss ← project_protos (feature_service_class codecs) feature_services project
    sds ← project_protos (saved_dataset_class codecs) saved_datasets project
    vrs ← project_protos (validation_reference_class codecs) validation_references project
    pms ← stored_project_metadata project
    infra ← get_infra sql codecs project
    last_updated ← get_last_updated_metadata sql project
    pure (
      record r {
        entities = r.entities ++ es;
        feature_views = r.feature_views ++ fvs;
        data_sources = r.data_sources ++ dss;
        on_demand_feature_views = r.on_demand_feature_views ++ odfvs;
        request_feature_views = r.request_feature_views ++ rfvs;
        stream_feature_views = r.stream_feature_views ++ sfvs;
        feature_services = r.feature_services ++ fss;
        saved_datasets = r.saved_datasets ++ sds;
        validation_references = r.validation_references ++ vrs;
        project_metadata =
            r.project_metadata ++ map (λ (m : ProjectMetadata). record m { project = project }) pms;
        infra = infra;
      },
      last_updated,
    )

  unfoldable pub add_projects_to_proto :
      List String
      → RegistryProto
      → List (Option ℕ)
      → SqlAction sql (RegistryProto × List (Option ℕ))
  unfolding add_to_proto ◌>>=◌ pure
  add_projects_to_proto [] r times = pure (r, times)
  add_projects_to_proto (project ∷ projects) r times =
      add_to_proto project r >>= λ p. add_projects_to_proto projects p.0 (times ++ p.1 ∷ [])

  -- `r.last_updated.FromDatetime(max(last_updated_timestamps))`; the times are whole seconds.
  unfoldable pub with_last_updated : RegistryProto → List (Option ℕ) → Result RegistryProto
  unfolding max_time
  with_last_updated r [] = ok r
  with_last_updated r (t ∷ ts) = elim (max_time t ts) [
    | err e ↦ err e
    | ok u ↦ ok (record r { last_updated = some (u * 1000000) })
  ]

  unfoldable pub proto : SqlAction sql RegistryProto
  unfolding get_all_projects add_projects_to_proto with_last_updated ◌>>=◌ lift
  proto = get_all_projects sql codecs >>= λ projects.
      add_projects_to_proto (sql.project_order projects) empty_registry [] >>= λ p.
      lift (with_last_updated p.0 p.1)

  -- The project metadata that `refresh` looks for, and adds to the old message if it is missing.
  unfoldable pub init_cached_project : String → SqlAction sql (Unit {0})
  unfolding get_project_metadata uuid4
  init_cached_project project s = elim s.cached_registry_proto [
    | none ↦ (err attribute_error, s)
    | some r ↦ elim (get_project_metadata (some r) project) [
      | some m ↦ (ok tt, s)
      | none ↦ (
        ok tt,
        record s {
          cached_registry_proto = some (record r {
            project_metadata =
                r.project_metadata
                ++ record { project = project; project_uuid = sql.uuid s.draws } ∷ [];
          });
          draws = suc s.draws;
        },
      )
    ]
  ]

  -- `self.cached_registry_proto = self.proto()`, and the time.
  unfoldable pub fill_cache : SqlAction sql (Unit {0})
  unfolding proto ◌>>=◌ utcnow
  fill_cache = proto >>= λ r. (λ s. (ok tt, record s { cached_registry_proto = some r })) >>= λ _.
      utcnow >>= λ now. λ s. (ok tt, record s { cached_registry_proto_created = some now })

  -- A missing or empty project is false.
  unfoldable pub refresh : Option String → SqlAction sql (Unit {0})
  unfolding init_cached_project fill_cache ◌>>=◌
  refresh none = fill_cache
  refresh (some project) =
      if project == "" then fill_cache else (init_cached_project project >>= λ _. fill_cache)

  -- `expired` in `_refresh_cached_registry_if_necessary`.
  unfoldable pub is_expired : SqlAction sql Bool
  unfolding utcnow ◌>>=◌ pure
  is_expired s = elim s.cached_registry_proto [
    | none ↦ (ok true, s)
    | some _ ↦ elim s.cached_registry_proto_created [
      | none ↦ (ok true, s)
      | some created ↦ elim s.cached_registry_proto_ttl [
        | zero ↦ (ok false, s)
        | suc n ↦ (utcnow >>= λ now. pure (ltb (created + suc n) now)) s
      ]
    ]
  ]

  -- `_refresh_cached_registry_if_necessary`
  unfoldable pub refresh_if_necessary : SqlAction sql (Unit {0})
  unfolding is_expired refresh ◌>>=◌ pure
  refresh_if_necessary = is_expired >>= λ expired. if expired then refresh none else pure tt

  -- A lookup in the cached message, or in the tables.
  unfoldable pub reading :
      {A : Type 0} → Bool → (RegistryProto → Result A) → SqlAction sql A → SqlAction sql A
  unfolding refresh_if_necessary ◌>>=◌
  reading false read stored = stored
  reading true read stored = refresh_if_necessary >>= λ _.
      λ s. elim s.cached_registry_proto [ none ↦ (err attribute_error, s) | some r ↦ (read r, s) ]
