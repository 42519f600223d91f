-- ===== src/Registry/Cache.antt =====
-- The cache of the class `Registry` of sdk/python/feast/infra/registry/registry.py: when it is used, when
-- it is filled from the store, and how it is prepared for changes.
use feast.Base.{
  zero, suc, ◌+◌, String, Bool, true, false, ◌&&◌, not, Option, none, some, [], ◌∷◌, ◌++◌, ok,
  value_error, if◌then◌else◌, ◌==◌, string_eq, find_first, ltb,
}
use feast.Registry.State.{
  ProjectMetadata, RegistryProto, empty_registry, Env, State, Action, pure, raise, gets,
  catch_file_not_found, ◌>>=◌, ◌>>◌, modify, cached_proto, put_cached, utcnow, uuid4, store_get,
  commit,
}

abbrev pub registry_schema_version : String
registry_schema_version = "1"

-- A registry that has not been written yet.
abbrev pub fresh_registry : RegistryProto
fresh_registry = record empty_registry { registry_schema_version = registry_schema_version }

-- `proto_registry_utils.get_project_metadata`
unfoldable pub get_project_metadata : Option RegistryProto → String → Option ProjectMetadata
unfolding find_first
get_project_metadata none project = none
get_project_metadata (some p) project =
    find_first (λ (m : ProjectMetadata). m.project == project) p.project_metadata

abbrev pub is_some {ℓ} : {A : Type ℓ} → Option A → Bool
is_some none = false
is_some (some _) = true

-- A project's name that is missing or empty is false.
abbrev pub named : Option String → Option String
named none = none
named (some p) = if p == "" then none else some p

-- Whether the cache knows the project, if one is named.
abbrev pub knows : Option String → State → Bool
knows project s = elim (named project) [
  | none ↦ true
  | some name ↦ is_some (get_project_metadata s.cached_registry_proto name)
]

module _ (env : Env) where
  -- `proto_registry_utils.init_project_metadata`: `ProjectMetadata` needs a name.
  unfoldable pub init_project_metadata : RegistryProto → String → Action RegistryProto
  unfolding uuid4
  init_project_metadata p project = do
    new_project_uuid ← uuid4 env
    if project == ""
        then raise (value_error "Project name needs to be specified")
        else pure (record p {
          project_metadata =
              p.project_metadata
              ++ record { project = project; project_uuid = new_project_uuid } ∷ [];
        })

  -- Whether the cache has expired. The clock is read only where the time to live is not 0.
  unfoldable pub is_expired : Action Bool
  unfolding utcnow
  is_expired s = elim s.cached_registry_proto [
    | none ↦ (ok true, s)
    | some _ ↦ elim s.cached_registry_proto_created [
      | none ↦ (ok true, s)
      | some created ↦ elim s.cached_registry_proto_ttl [
        | zero ↦ (ok false, s)
        | suc n ↦ (do now ← utcnow env; pure (ltb (created + suc n) now)) s
      ]
    ]
  ]

  -- A project that the message does not know is added to it, in the cache, and committed.
  unfoldable pub add_project : RegistryProto → String → Action RegistryProto
  unfolding init_project_metadata commit cached_proto put_cached
  add_project registry_proto project = do
    registry_proto' ← init_project_metadata registry_proto project
    put_cached registry_proto'
    commit env
    cached_proto

  -- The end of `_get_registry_proto`: the store is read into the cache, and a project that it does
  -- not know is added and committed.
  unfoldable pub fetch : Option String → Action RegistryProto
  unfolding store_get utcnow put_cached add_project
  fetch project = do
    registry_proto ← store_get env
    put_cached registry_proto
    now ← utcnow env
    modify (λ s. record s { cached_registry_proto_created = some now })
    elim (named project) [
      | none ↦ pure registry_proto
      | some name ↦ elim (get_project_metadata (some registry_proto) name) [
        | some _ ↦ pure registry_proto
        | none ↦ add_project registry_proto name
      ]
    ]

  -- The cache is used if it is allowed, has not expired and knows the project.
  unfoldable pub used_or_fetched : Option String → Bool → Bool → Action RegistryProto
  unfolding fetch
  used_or_fetched project allow_cache expired = do
    known ← gets (knows project)
    if allow_cache && not expired && known then cached_proto else fetch project

  -- `Registry._get_registry_proto`
  unfoldable pub get_registry_proto : Option String → Bool → Action RegistryProto
  unfolding is_expired used_or_fetched
  get_registry_proto project allow_cache = do
    expired ← is_expired
    used_or_fetched project allow_cache expired

  -- The handler in `_prepare_registry_for_changes`: the store has no file yet.
  unfoldable pub start_fresh : Action (Unit {0})
  unfolding put_cached utcnow modify
  start_fresh = do
    put_cached fresh_registry
    now ← utcnow env
    modify (λ s. record s { cached_registry_proto_created = some now })

  -- The `try` block of `_prepare_registry_for_changes`, with its handler.
  unfoldable pub load_for_changes : String → Action (Unit {0})
  unfolding get_registry_proto start_fresh
  load_for_changes project =
      catch_file_not_found
        (do
          get_registry_proto (some project) true
          cached ← gets (λ s. s.cached_registry_proto)
          elim (get_project_metadata cached project) [
            | some _ ↦ pure tt
            | none ↦ do get_registry_proto (some project) false; pure tt
          ])
        start_fresh

  -- `Registry._prepare_registry_for_changes`
  unfoldable pub prepare : String → Action RegistryProto
  unfolding load_for_changes add_project
  prepare project = do
    load_for_changes project
    p ← cached_proto
    elim (get_project_metadata (some p) project) [ some _ ↦ pure p | none ↦ add_project p project ]
