-- ===== src/Infra.antt =====
-- `Infra` and the three kinds of tables of sdk/python/feast/infra/infra_object.py, as the messages that
-- the registry stores and that sdk/python/feast/diff/infra_diff.py compares. A table is rebuilt from its
-- message by the classes `SqliteTable`, `DynamoDBTable` and `DatastoreTable` of
-- sdk/python/feast/infra/online_stores.
use feast.Base.{String, Bool, true, false, List, Option, none, some, ◌==◌, string_eq, if◌then◌else◌}

-- The message `DatastoreTable`, `DynamoDBTable` or `SqliteTable`. The two last fields of the first are
-- messages that wrap a text, or are not set. A custom object, or one with no table, is not represented.
pub data InfraTable : Type 0 where
  datastore_table : String → String → Option String → Option String → InfraTable
  dynamodb_table : String → String → InfraTable
  sqlite_table : String → String → InfraTable

-- `infra_object_class_type`: one of the three constants, or another text.
pub data InfraClass : Type 0 where
  datastore_class dynamodb_class sqlite_class : InfraClass
  other_class : String → InfraClass

-- The message `InfraObject`.
pub record InfraObjectProto : Type 0 where
  pub infra_object_class_type : InfraClass
  pub infra_object : InfraTable

-- The message `Infra`.
pub record InfraProto : Type 0 where
  pub infra_objects : List InfraObjectProto

-- Whether two objects are of one and the same of the three classes.
abbrev pub same_class : InfraClass → InfraClass → Bool
same_class datastore_class datastore_class = true
same_class dynamodb_class dynamodb_class = true
same_class sqlite_class sqlite_class = true
same_class (other_class a) (other_class b) = a == b
same_class a b = false

unfoldable pub table_name : InfraTable → String
table_name (datastore_table project name project_id namespace) = name
table_name (dynamodb_table name region) = name
table_name (sqlite_table path name) = name

-- The class that `InfraObject.from_proto` takes for a table.
unfoldable pub class_of : InfraTable → InfraClass
class_of (datastore_table project name project_id namespace) = datastore_class
class_of (dynamodb_table name region) = dynamodb_class
class_of (sqlite_table path name) = sqlite_class

-- `if self.project_id: proto.project_id.value = self.project_id`
abbrev pub unless_empty : Option String → Option String
unless_empty none = none
unless_empty (some s) = if s == "" then none else some s

-- `cls.from_infra_object_proto(p).to_proto()`: a field that is not set reads as its default.
unfoldable pub reread_as_datastore : InfraTable → InfraTable
reread_as_datastore (datastore_table project name project_id namespace) =
    datastore_table project name (unless_empty project_id) (unless_empty namespace)
reread_as_datastore t = datastore_table "" "" none none

unfoldable pub reread_as_dynamodb : InfraTable → InfraTable
reread_as_dynamodb (dynamodb_table name region) = dynamodb_table name region
reread_as_dynamodb t = dynamodb_table "" ""

unfoldable pub reread_as_sqlite : InfraTable → InfraTable
reread_as_sqlite (sqlite_table path name) = sqlite_table path name
reread_as_sqlite t = sqlite_table "" ""
