-- ===== src/Diff/ByKind.antt =====
-- `diff_infra_protos` and `InfraDiff.update` of sdk/python/feast/diff/infra_diff.py over all classes of
-- tables.
use feast.Base.{◌≡◌, refl, List, [], ◌∷◌, ◌++◌, map, ok, All, filter}
use feast.Infra.{
  InfraTable, datastore_table, dynamodb_table, sqlite_table, InfraProto, InfraObjectProto, class_of,
  same_class, reread_as_datastore, reread_as_dynamodb, reread_as_sqlite,
}
use feast.Diff.Infra.{
  InfraObjectDiff, Kind, datastores, dynamodbs, sqlites, get_infra_object_protos_by_type,
  diff_by_kind, diff_infra_protos, TableCall, update_infra,
}
use feast.Diff.Update.{calls_for, OfKind, diff_kind-update, update_infra-append}

-- The calls for the tables of some classes, class by class.
abbrev pub calls_by_kind : List Kind → InfraProto → InfraProto → List TableCall
calls_by_kind [] current new = []
calls_by_kind (kind ∷ kinds) current new =
    calls_for (get_infra_object_protos_by_type current kind)
      (get_infra_object_protos_by_type new kind)
    ++ calls_by_kind kinds current new

-- The tables of a class are of that class.
Rereads : Kind → Type 0
Rereads kind = (t : InfraTable) → class_of (kind.reread t) ≡ kind.class_type

datastores-Rereads : Rereads datastores
unfolding Rereads class_of reread_as_datastore
datastores-Rereads (datastore_table project name project_id namespace) = refl
datastores-Rereads (dynamodb_table name region) = refl
datastores-Rereads (sqlite_table path name) = refl

dynamodbs-Rereads : Rereads dynamodbs
unfolding Rereads class_of reread_as_dynamodb
dynamodbs-Rereads (datastore_table project name project_id namespace) = refl
dynamodbs-Rereads (dynamodb_table name region) = refl
dynamodbs-Rereads (sqlite_table path name) = refl

sqlites-Rereads : Rereads sqlites
unfolding Rereads class_of reread_as_sqlite
sqlites-Rereads (datastore_table project name project_id namespace) = refl
sqlites-Rereads (dynamodb_table name region) = refl
sqlites-Rereads (sqlite_table path name) = refl

get_infra_object_protos_by_type-OfKind :
    (kind : Kind) (infra : InfraProto)
    → Rereads kind
    → All (OfKind kind) (get_infra_object_protos_by_type infra kind)
unfolding get_infra_object_protos_by_type Rereads
get_infra_object_protos_by_type-OfKind kind infra sound = rereads (
    filter (λ (o : InfraObjectProto). same_class o.infra_object_class_type kind.class_type)
      infra.infra_objects)
  where
    rereads :
        (os : List InfraObjectProto)
        → All (OfKind kind) (map (λ (o : InfraObjectProto). kind.reread o.infra_object) os)
    rereads [] = tt
    rereads (o ∷ os) = (sound o.infra_object, rereads os)

diff_by_kind-update :
    (kinds : List Kind) (current new : InfraProto)
    → All Rereads kinds
    → (ds : List InfraObjectDiff) × (diff_by_kind kinds current new ≡ ok ds)
      × (update_infra ds ≡ (calls_by_kind kinds current new, ok tt))
unfolding diff_by_kind update_infra
diff_by_kind-update [] current new h = ([], refl, refl)
diff_by_kind-update (kind ∷ kinds) current new (sound, h) =
    let (ds, made, ran) =
      diff_kind-update kind (get_infra_object_protos_by_type current kind)
        (get_infra_object_protos_by_type new kind)
        (get_infra_object_protos_by_type-OfKind kind current sound)
        (get_infra_object_protos_by_type-OfKind kind new sound) in
    let (es, rest, later) = diff_by_kind-update kinds current new h in
    (ds ++ es, rw (made, rest), update_infra-append ds es _ _ ran later)

-- The comparison of any two infrastructures returns, and applying what it found returns and makes, for
-- datastore, then dynamodb, then sqlite tables, these calls: `update` of every desired table whose name
-- is new, `teardown` of every existing one whose name is gone, and `teardown` of every existing one that
-- differs in more than the project from a desired one of its name. The last is not deployed again.
pub diff_infra_protos-update :
    (current new : InfraProto)
    → (ds : List InfraObjectDiff) × (diff_infra_protos current new ≡ ok ds)
      × (update_infra ds
          ≡ (calls_by_kind (datastores ∷ dynamodbs ∷ sqlites ∷ []) current new, ok tt))
unfolding diff_infra_protos
diff_infra_protos-update current new =
    diff_by_kind-update (datastores ∷ dynamodbs ∷ sqlites ∷ []) current new
      (datastores-Rereads, (dynamodbs-Rereads, (sqlites-Rereads, tt)))
