-- ===== src/Registry/State.antt =====
-- The message `Registry` (protos/feast/core/Registry.proto), the state of an object of the class
-- `Registry` of sdk/python/feast/infra/registry/registry.py with a file store
-- (sdk/python/feast/infra/registry/file.py), and methods as functions on that state that may raise.
use feast.Base.{
  ℕ, ◌+◌, String, Bool, true, false, Option, none, some, List, [], Result, ok, err, Error,
  file_not_found, assertion_error, string_eq,
}
use feast.Function.{Dill}
use feast.Entity.{EntityProto}
use feast.DataSource.{DataSourceProto}
use feast.FeatureView.Messages.{FeatureViewProto}
use feast.StreamFeatureView.Messages.{StreamFeatureViewProto}
use feast.OnDemandFeatureView.{OnDemandFeatureViewProto}
use feast.RequestFeatureView.{RequestFeatureViewProto}
use feast.FeatureService.{FeatureServiceProto}
use feast.SavedDataset.{SavedDatasetProto, ValidationReferenceProto}
use feast.Infra.{InfraProto}

-- The message `ProjectMetadata`.
pub record ProjectMetadata : Type 0 where
  pub project : String
  pub project_uuid : String

pub record RegistryProto : Type 0 where
  pub entities : List EntityProto
  pub feature_views : List FeatureViewProto
  pub data_sources : List DataSourceProto
  pub on_demand_feature_views : List OnDemandFeatureViewProto
  pub request_feature_views : List RequestFeatureViewProto
  pub stream_feature_views : List StreamFeatureViewProto
  pub feature_services : List FeatureServiceProto
  pub saved_datasets : List SavedDatasetProto
  pub validation_references : List ValidationReferenceProto
  pub infra : InfraProto
  pub project_metadata : List ProjectMetadata
  pub registry_schema_version : String
  pub version_id : String
  pub last_updated : Option ℕ

-- `RegistryProto()`
abbrev pub empty_registry : RegistryProto
empty_registry = record {
  entities = [];
  feature_views = [];
  data_sources = [];
  on_demand_feature_views = [];
  request_feature_views = [];
  stream_feature_views = [];
  feature_services = [];
  saved_datasets = [];
  validation_references = [];
  infra = record { infra_objects = [] };
  project_metadata = [];
  registry_schema_version = "";
  version_id = "";
  last_updated = none;
}

-- What the registry asks of Python's standard library and of `dill`: the readings of the clock, in
-- microseconds, the random identifiers, each by its number, and the writer of functions.
pub record Env : Type 0 where
  pub clock : ℕ → ℕ
  pub uuid : ℕ → String
  pub dill : Dill

pub record State : Type 0 where
  pub cached_registry_proto : Option RegistryProto
  pub cached_registry_proto_created : Option ℕ
  -- In microseconds; 0 means that the cache does not expire.
  pub cached_registry_proto_ttl : ℕ
  -- What the store's file holds, if it exists.
  pub file : Option RegistryProto
  -- How often the clock has been read, and how many identifiers have been drawn.
  pub readings : ℕ
  pub draws : ℕ

-- A method call. What was written before an exception stays written.
abbrev pub Action : Type 0 → Type 0
Action A = State → Result A × State

module _ {A : Type 0} where
  unfoldable pub pure : A → Action A
  pure a s = (ok a, s)

  unfoldable pub raise : Error → Action A
  raise e s = (err e, s)

  unfoldable pub gets : (State → A) → Action A
  gets f s = (ok (f s), s)

  unfoldable pub lift : Result A → Action A
  lift r s = (r, s)

  -- `try: m except FileNotFoundError: handler`
  unfoldable pub catch_file_not_found : Action A → Action A → Action A
  catch_file_not_found m handler s =
      let (r, s') = m s in
      elim r [
        | ok a ↦ (ok a, s')
        | err e ↦ elim e [ file_not_found ↦ handler s' | other ↦ (err other, s') ]
      ]

infixl 5 ◌>>=◌ ◌>>◌
unfoldable pub ◌>>=◌ : {A B : Type 0} → Action A → (A → Action B) → Action B
unfolding pure raise gets lift catch_file_not_found
◌>>=◌ m f s = let (r, s') = m s in elim r [ ok a ↦ f a s' | err e ↦ (err e, s') ]

abbrev pub ◌>>◌ : {A B : Type 0} → Action A → Action B → Action B
m >> k = m >>= λ _. k

unfoldable pub modify : (State → State) → Action (Unit {0})
modify f s = (ok tt, f s)

-- `if c: m`
abbrev pub when : Bool → Action (Unit {0}) → Action (Unit {0})
when true m = m
when false m = pure tt

-- `self.cached_registry_proto`, which the code asserts to be there.
unfoldable pub cached_proto : Action RegistryProto
cached_proto s = elim s.cached_registry_proto [
  | none ↦ (err assertion_error, s)
  | some p ↦ (ok p, s)
]

-- `self.cached_registry_proto = p`, and every change of that object in place.
unfoldable pub put_cached : RegistryProto → Action (Unit {0})
put_cached p s = (ok tt, record s { cached_registry_proto = some p })

module _ (env : Env) where
  -- `datetime.utcnow()`
  unfoldable pub utcnow : Action ℕ
  utcnow s = (ok (env.clock s.readings), record s { readings = s.readings + 1 })

  -- `str(uuid.uuid4())`
  unfoldable pub uuid4 : Action String
  uuid4 s = (ok (env.uuid s.draws), record s { draws = s.draws + 1 })

  -- `FileRegistryStore.get_registry_proto`
  unfoldable pub store_get : Action RegistryProto
  store_get s = elim s.file [ none ↦ (err file_not_found, s) | some p ↦ (ok p, s) ]

  -- `FileRegistryStore.update_registry_proto`: the message is changed, and then written.
  unfoldable pub store_update : RegistryProto → Action RegistryProto
  unfolding ◌>>=◌ modify uuid4 utcnow
  store_update p = do
    version ← uuid4
    now ← utcnow
    let p' = record p { version_id = version; last_updated = some now }
    modify (λ s. record s { file = some p' })
    pure p'

  -- `FileRegistryStore.teardown`
  unfoldable pub store_teardown : Action (Unit {0})
  unfolding modify
  store_teardown = modify (λ s. record s { file = none })

  -- `Registry.commit`: the store writes the cached object, and changes it.
  unfoldable pub commit : Action (Unit {0})
  unfolding store_update put_cached
  commit s = elim s.cached_registry_proto [
    | none ↦ (ok tt, s)
    | some p ↦ (do p' ← store_update p; put_cached p') s
  ]
