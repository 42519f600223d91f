-- ===== src/Registry/Tests.antt =====
-- Runs of the registry's methods on a small registry, and the theorems on them at these values.
use feast.Base.{
  [], ◌⊎◌, String, Bool, true, ◌≡◌, refl, none, some, ok, err, entity_not_found, if◌then◌else◌,
  ◌==◌, string_eq, ◌&&◌,
}
use feast.Types.{value_type_of}
use feast.Samples.{
  env, driver, stored, no_file, holding, driver-named, rides-named, stored-IsValid, stored-Known,
}
use feast.Entity
use feast.Entity.{Entity, EntityProto}
use feast.Registry.State.{RegistryProto, State}
use feast.Registry.Cache.{prepare, is_expired}
use feast.Registry.Lookup.{reading, get_entity, get_proto}
use feast.Registry.Writes.{stamped_entity, apply_entity, delete_entity, refresh}
use feast.Registry.Valid.{StateValid}
use feast.Registry.Settled.{Settled, Known, Cached}
use feast.Registry.Ends.{Ends, Never}
use feast.Registry.Prepared.{prepare-Ends}
use feast.Registry.Keys.{reading-Settled}
use feast.Proto.Distinct.{find}
use feast.Registry.Steps.{start, then_call, applies_entity, perform}
use feast.Registry.Entities.{apply_entity-get_entity, apply_entity-Settled, delete_entity-Settled}
use feast.Registry.Reload.{refresh-Settled, prepare-expired}
use feast.Registry.Valid.Sequences.{reachable-StateValid}

stored-Settled : Settled stored (holding stored)
stored-Settled = record { cached = refl; stored = refl }

reachable-StateValid_example :
    StateValid (perform env (applies_entity driver "rides" true) no_file).1
reachable-StateValid_example =
    reachable-StateValid env no_file (perform env (applies_entity driver "rides" true) no_file).1
      (then_call start (applies_entity driver "rides" true)) (tt, tt)

prepare-Ends_example :
    Ends (λ r t. Cached r t × Known "rides" r) Never (prepare env "rides") no_file
prepare-Ends_example = prepare-Ends env "rides" no_file rides-named

apply_entity-get_entity_example :
    (t : State) × (apply_entity env driver "rides" true no_file ≡ (ok tt, t))
    × ((allow_cache : Bool)
        → (reading env "rides" allow_cache (λ r. get_entity r "driver" "rides") t).0
          ≡ ok (stamped_entity 1000 driver))
apply_entity-get_entity_example =
    apply_entity-get_entity env driver "rides" no_file driver-named rides-named (tt, tt)

apply_entity-Settled_example :
    (t : State) × (r' : RegistryProto) × (apply_entity env driver "rides" true (holding stored)
      ≡ (ok tt, t))
    × Settled r' t
    × ((n m : String)
        → get_entity r' n m ≡ (
            if "driver" == n && "rides" == m
            then ok (stamped_entity 1003 driver)
            else get_entity stored n m))
apply_entity-Settled_example =
    apply_entity-Settled env stored driver "rides" (holding stored) driver-named rides-named
      stored-IsValid stored-Known stored-Settled

delete_entity-Settled_example :
    ((find "driver" "rides" stored.entities ≡ none)
      × ((t : State) × (delete_entity env "driver" "rides" true (holding stored)
            ≡ (err (entity_not_found "driver" "rides"), t))
          × Settled stored t))
    ⊎ ((p : EntityProto) × (find "driver" "rides" stored.entities ≡ some p)
        × ((t : State) × (r' : RegistryProto) × (delete_entity env "driver" "rides" true
                (holding stored)
              ≡ (ok tt, t))
            × Settled r' t
            × ((n m : String)
                → get_entity r' n m ≡ (
                    if n == "driver" && m == "rides"
                    then err (entity_not_found n m)
                    else get_entity stored n m))))
delete_entity-Settled_example =
    delete_entity-Settled env stored "driver" "rides" (holding stored) rides-named stored-IsValid
      stored-Known stored-Settled

reading-Settled_example :
    (reading env "rides" true (λ r. get_entity r "driver" "rides") (holding stored)).0
    ≡ get_entity stored "driver" "rides"
reading-Settled_example =
    reading-Settled env stored "rides" true (λ r. get_entity r "driver" "rides") (holding stored)
      rides-named stored-Known stored-Settled

-- The entity was deleted without a commit, and then the cache expired.
abbrev pending : State
pending = record (holding stored) {
  cached_registry_proto = some (record stored { entities = [] });
  cached_registry_proto_created = some 0;
  cached_registry_proto_ttl = 1;
}

pending-expired : (is_expired env pending).0 ≡ ok true
unfolding is_expired feast.Registry.State.◌>>=◌
pending-expired = refl

refresh-Settled_example :
    (t : State) × (refresh env (some "rides") pending ≡ (ok tt, t)) × Settled stored t
refresh-Settled_example = refresh-Settled env stored "rides" pending rides-named stored-Known refl

prepare-expired_example :
    (t : State) × (prepare env "rides" pending ≡ (ok stored, t)) × Settled stored t
prepare-expired_example =
    prepare-expired env stored "rides" pending rides-named stored-Known refl pending-expired

-- The stored entity is found.
stored-driver :
    get_entity stored "driver" "rides"
    ≡ ok (record driver { created_timestamp = some 7; last_updated_timestamp = some 7 })
unfolding get_entity Entity.from_proto get_proto string_eq value_type_of
stored-driver = refl
