-- ===== src/Samples.antt =====
-- Values that the tests share: a writer of functions, a clock, a registry with an entity and a view.
use Prim.Native.Char.{code}
use feast.Base.{
  ◌+◌, String, true, false, if◌then◌else◌, ◌==◌, nat_eq, ◌≡◌, ◌≢◌, refl, ap, arith, string_eq,
  find_first,
}
use feast.Base.{none, some, [], ◌∷◌}
use feast.Types.{ValueType, primitive, PrimitiveFeastType}
use feast.Function.{Dill}
use feast.Field.{Field}
use feast.Projection.{FeatureViewProjection}
use feast.Entity.{Entity}
use feast.DataSource.{DataSource}
use feast.FeatureView.{FeatureView}
use feast.Registry.Cache.{get_project_metadata}
use feast.Registry.Valid.{IsValid}
use feast.Registry.Settled.{Known}
use feast.Registry.State.{RegistryProto, Env, State, empty_registry}

-- A writer of functions: the name, each character of it marked, a mark for its end, and the code.
abbrev pub encode : String → String → String
encode String.[] t = String.◌∷◌ "b" t
encode (String.◌∷◌ c s) t = String.◌∷◌ "a" (String.◌∷◌ c (encode s t))

abbrev pub decode : String → String × String
decode String.[] = ("", "")
decode (String.◌∷◌ m String.[]) = ("", "")
decode (String.◌∷◌ m (String.◌∷◌ c s)) =
    let rest = decode s in
    if code m == 97 then (String.◌∷◌ c rest.0, rest.1) else ("", String.◌∷◌ c s)

pub decode-encode : (s t : String) → decode (encode s t) ≡ (s, t)
unfolding nat_eq
decode-encode String.[] String.[] = refl
decode-encode String.[] (String.◌∷◌ c t) = refl
decode-encode (String.◌∷◌ c s) t = ap (λ p. (String.◌∷◌ c p.0, p.1)) (decode-encode s t)

abbrev pub pickle : Dill
pickle = record {
  dumps = λ f. encode f.fun_name f.co_code;
  loads = λ s. record { fun_name = (decode s).0; co_code = (decode s).1 };
  loads-dumps =
      λ f. ap (λ p. record { fun_name = p.0; co_code = p.1 }) (decode-encode f.fun_name f.co_code);
}

abbrev pub env : Env
env = record { clock = λ n. n + 1000; uuid = λ n. "uuid"; dill = pickle }

abbrev pub rides : String
rides = "rides"

abbrev pub driver : Entity
driver = record {
  name = "driver";
  value_type = ValueType.int64;
  join_key = "driver_id";
  description = "";
  tags = [];
  owner = "";
  created_timestamp = none;
  last_updated_timestamp = none;
}

abbrev pub trips : DataSource
trips = record {
  name = "trips";
  class_name = "feast.infra.offline_stores.file_source.FileSource";
  is_custom = false;
  timestamp_field = "event_timestamp";
  created_timestamp_column = "";
  field_mapping = [];
  date_partition_column = "";
  description = "";
  tags = [];
  owner = "";
  options = "trips.parquet";
}

abbrev pub rate : Field
rate = record {
  name = "rate";
  dtype = primitive PrimitiveFeastType.float32;
  description = "";
  tags = [];
}

abbrev pub rate_projection : FeatureViewProjection
rate_projection = record {
  name = "stats";
  name_alias = none;
  desired_features = [];
  features = rate ∷ [];
  join_key_map = [];
}

abbrev pub stats : FeatureView
stats = record {
  base = record {
    name = "stats";
    features = rate ∷ [];
    description = "";
    tags = [];
    owner = "";
    projection = rate_projection;
    created_timestamp = none;
    last_updated_timestamp = none;
  };
  entities = "driver" ∷ [];
  ttl = some 0;
  batch_source = trips;
  stream_source = none;
  entity_columns = [];
  online = true;
  materialization_intervals = [];
}

-- A stored registry that knows the project `rides`, and has the entity.
abbrev pub stored : RegistryProto
stored = record empty_registry {
  entities =
      record {
        name = "driver";
        project = "rides";
        body = record {
          value_type = 4;
          join_key = "driver_id";
          description = "";
          tags = [];
          owner = "";
          created_timestamp = some 7;
          last_updated_timestamp = some 7;
        };
      }
      ∷ [];
  project_metadata = record { project = "rides"; project_uuid = "uuid" } ∷ [];
}

-- Nothing cached, no file.
abbrev pub no_file : State
no_file = record {
  cached_registry_proto = none;
  cached_registry_proto_created = none;
  cached_registry_proto_ttl = 600;
  file = none;
  readings = 0;
  draws = 0;
}

abbrev pub holding : RegistryProto → State
holding r = record {
  cached_registry_proto = some r;
  cached_registry_proto_created = some 0;
  cached_registry_proto_ttl = 600;
  file = some r;
  readings = 3;
  draws = 2;
}

-- What the theorems ask of these values.
apart : (s t : String) → (s == t) ≡ false → s ≢ t
apart s t h = ground arith

pub driver-named : driver.name ≢ ""
unfolding string_eq
driver-named = apart "driver" "" refl

pub rides-named : rides ≢ ""
unfolding string_eq
rides-named = apart "rides" "" refl

pub stored-IsValid : IsValid stored
unfolding find_first
stored-IsValid = record { parts = ((refl, tt), tt, tt, tt, tt, tt, tt, tt, tt, (refl, tt)) }

pub stored-Known : Known "rides" stored
unfolding get_project_metadata string_eq
stored-Known = refl
