-- ===== src/SqlRegistry/Tests.antt =====
-- Runs of the methods of a SQL registry on tables kept as lists, and the theorems on them at these values.
use feast.Base.{
  ◌≡◌, ◌+◌, ◌/◌, refl, ℕ, none, some, List, [], ◌∷◌, ok, entity_not_found, if◌then◌else◌, string_eq,
  nat_eq,
}
use feast.Samples.{driver}
use feast.Types.{value_type_of, value}
use feast.Entity
use feast.Entity.{Entity, EntityProto}
use feast.SqlRegistry.Tables.{SqlTable, entities, same_key, same_metadata_key, same_table}
use feast.SqlRegistry.State.{Sql, SqlState}
use feast.SqlRegistry.Objects.{Class}
use feast.SqlRegistry.Calls.{
  Call, apply, get, delete, applied, got, Model, Entry, perform_all, model_all,
}
use feast.SqlRegistry.ListTable.{list_table, list_laws}
use feast.SqlRegistry.Agreement.{Refines}
use feast.SqlRegistry.Refinement.{perform_all-model_all, apply_object-other_project}

abbrev sql : Sql EntityProto
sql = record {
  objects = list_table same_key;
  metadata = list_table same_metadata_key;
  clock = λ n. n + 1000;
  timestamp = λ t. t / 1000000;
  uuid = λ n. "uuid";
  decimal = λ n. "0";
  table_order = λ ts. ts;
  project_order = λ ps. ps;
}

-- A message stands for its bytes.
abbrev class : Class EntityProto Entity EntityProto
class = record {
  with_last_updated = λ now e. record e { last_updated_timestamp = some now };
  to_proto = λ e. ok (Entity.to_proto e);
  with_created = λ now p. record p { body = record (p.body) { created_timestamp = some now } };
  from_proto = Entity.from_proto;
  serialize_to_string = λ p. p;
  from_string = λ p. ok p;
}

abbrev empty : SqlState sql
empty = record {
  tables = λ _. [];
  feast_metadata = [];
  cached_registry_proto = none;
  cached_registry_proto_created = none;
  cached_registry_proto_ttl = 0;
  readings = 0;
  draws = 0;
}

abbrev nothing : Model EntityProto
nothing = record { entries = λ _ _. none; readings = 0 }

empty-Refines :
    Refines sql (list_laws same_key) (list_laws same_metadata_key) entities empty nothing
empty-Refines = record { rows = λ r. ((λ there. absurd there), λ h. cc); clock = refl }

abbrev calls : List (Call Entity)
calls =
    apply "driver" "rides" driver
    ∷ get "driver" "rides"
    ∷ delete "driver" "rides"
    ∷ get "driver" "rides"
    ∷ []

perform_all-model_all_example :
    ((perform_all sql class entities entity_not_found calls empty).0
      ≡ (model_all sql.clock sql.timestamp class entity_not_found calls nothing).0)
    × Refines sql
        (list_laws same_key)
        (list_laws same_metadata_key)
        entities
        (perform_all sql class entities entity_not_found calls empty).1
        (model_all sql.clock sql.timestamp class entity_not_found calls nothing).1
    × ((u : SqlTable)
        → (perform_all sql class entities entity_not_found calls empty).1.tables u ≡ (
            if same_table u entities
            then (perform_all sql class entities entity_not_found calls empty).1.tables u
            else []))
perform_all-model_all_example =
    perform_all-model_all sql (list_laws same_key) (list_laws same_metadata_key) entities class
      entity_not_found calls nothing empty empty-Refines

-- The same name in two projects.
abbrev twice : List (Call Entity)
twice = apply "driver" "rides" driver ∷ apply "driver" "meals" driver ∷ []

abbrev two : SqlState sql
two = (perform_all sql class entities entity_not_found twice empty).1

abbrev two_entries : Model EntityProto
two_entries = (model_all sql.clock sql.timestamp class entity_not_found twice nothing).1

two-Refines :
    Refines sql (list_laws same_key) (list_laws same_metadata_key) entities two two_entries
two-Refines =
    (perform_all-model_all sql (list_laws same_key) (list_laws same_metadata_key) entities class
      entity_not_found twice nothing empty empty-Refines).1

abbrev changed : Entity
changed = record driver { description = "changed" }

abbrev entry : ℕ → Entry EntityProto
entry now = record {
  last_updated_timestamp = 0;
  proto = class.with_created now (Entity.to_proto (class.with_last_updated now driver));
  user_metadata = none;
}

own : two_entries.entries "driver" "rides" ≡ some (entry 1001)
unfolding model_all string_eq
own = refl

others : two_entries.entries "driver" "meals" ≡ some (entry 1003)
unfolding model_all string_eq
others = refl

apply_object-other_project_example :
    (perform_all sql class entities entity_not_found
      (apply "driver" "rides" changed ∷ get "driver" "meals" ∷ [])
      two).0
    ≡ ok applied ∷ ok (got (record changed { last_updated_timestamp = some 1005 })) ∷ []
unfolding model_all string_eq Entity.from_proto Entity.to_proto value_type_of value
apply_object-other_project_example =
    apply_object-other_project sql (list_laws same_key) (list_laws same_metadata_key) entities class
      entity_not_found "driver" "rides" "meals" changed
      (Entity.to_proto (class.with_last_updated 1005 changed)) (entry 1001) (entry 1003) two_entries
      two two-Refines refl refl refl own others
