-- ===== src/Diff/Infra.antt =====
-- The comparison of infrastructures and its application: sdk/python/feast/diff/infra_diff.py.
use feast.Base.{
  String, Bool, true, not, List, [], ◌∷◌, ◌++◌, map, Option, none, some, ◌==◌, string_eq, option_eq,
  if◌then◌else◌, ◌||◌, ◌&&◌, Result, ok, err, ◌>>=◌, index_error, assertion_error,
  feast_invalid_infra_object_type, filter, any, find_first, traverse,
}
use feast.Infra.{
  InfraTable, datastore_table, dynamodb_table, sqlite_table, InfraClass, datastore_class,
  dynamodb_class, sqlite_class, InfraObjectProto, InfraProto, same_class, table_name, class_of,
  reread_as_datastore, reread_as_dynamodb, reread_as_sqlite,
}
use feast.Diff.{TransitionType, create, delete, update, unchanged, unknown, PropertyDiff}

pub record InfraObjectDiff : Type 0 where
  pub name : String
  pub infra_object_type : String
  pub current_infra_object : Option InfraTable
  pub new_infra_object : Option InfraTable
  pub infra_object_property_diffs : List PropertyDiff
  pub transition_type : TransitionType

-- The fields of a message, in the order of its descriptor. A text is `some`.
unfoldable pub table_fields : InfraTable → List (String × Option String)
table_fields (datastore_table project name project_id namespace) =
    ("project", some project)
    ∷ ("name", some name)
    ∷ ("project_id", project_id)
    ∷ ("namespace", namespace)
    ∷ []
table_fields (dynamodb_table name region) = ("name", some name) ∷ ("region", some region) ∷ []
table_fields (sqlite_table path name) = ("path", some path) ∷ ("name", some name) ∷ []

-- The loop of `diff_between`. Both messages have one descriptor, and so the same fields.
unfoldable pub property_diffs :
    List (String × Option String) → List (String × Option String) → List PropertyDiff
property_diffs ((field, existing) ∷ fields) ((field', declared) ∷ fields') =
    let rest = property_diffs fields fields' in
    if field == "project" || existing == declared
    then rest
    else record { property_name = field; val_existing = existing; val_declared = declared } ∷ rest
property_diffs fields fields' = []

-- `current == new` of two messages of one descriptor.
unfoldable pub same_fields : List (String × Option String) → List (String × Option String) → Bool
same_fields ((field, existing) ∷ fields) ((field', declared) ∷ fields') =
    existing == declared && same_fields fields fields'
same_fields fields fields' = true

-- What a loop that found these differences has set.
abbrev pub transition_of : List PropertyDiff → TransitionType
transition_of [] = unchanged
transition_of (d ∷ ds) = update

unfoldable pub diff_between : InfraTable → InfraTable → String → Result InfraObjectDiff
unfolding same_fields property_diffs table_fields class_of table_name
diff_between current new infra_object_type =
    if same_class (class_of current) (class_of new)
    then ok (
        let diffs =
          if same_fields (table_fields current) (table_fields new)
          then []
          else property_diffs (table_fields current) (table_fields new) in
        record {
          name = table_name new;
          infra_object_type = infra_object_type;
          current_infra_object = some current;
          new_infra_object = some new;
          infra_object_property_diffs = diffs;
          transition_type = transition_of diffs;
        })
    else err assertion_error

-- `n in {e.name for e in objs}`
unfoldable pub named_in : List InfraTable → String → Bool
unfolding any table_name
named_in objs n = any (λ e. table_name e == n) objs

pub record Tagged : Type 0 where
  pub objs_to_keep : List InfraTable
  pub objs_to_delete : List InfraTable
  pub objs_to_add : List InfraTable

unfoldable pub tag_infra_proto_objects_for_keep_delete_add :
    List InfraTable → List InfraTable → Tagged
unfolding filter named_in
tag_infra_proto_objects_for_keep_delete_add existing_objs desired_objs = record {
  objs_to_add = filter (λ e. not (named_in existing_objs (table_name e))) desired_objs;
  objs_to_keep = filter (λ e. named_in existing_objs (table_name e)) desired_objs;
  objs_to_delete = filter (λ e. not (named_in desired_objs (table_name e))) existing_objs;
}

-- The three classes that `diff_infra_protos` goes through, with the word for each, and how an object of
-- the class is rebuilt from its message.
pub record Kind : Type 0 where
  pub class_type : InfraClass
  pub word : String
  pub reread : InfraTable → InfraTable

abbrev pub datastores : Kind
datastores = record {
  class_type = datastore_class;
  word = "datastore table";
  reread = reread_as_datastore;
}

abbrev pub dynamodbs : Kind
dynamodbs = record {
  class_type = dynamodb_class;
  word = "dynamodb table";
  reread = reread_as_dynamodb;
}

abbrev pub sqlites : Kind
sqlites = record { class_type = sqlite_class; word = "sqlite table"; reread = reread_as_sqlite }

unfoldable pub get_infra_object_protos_by_type : InfraProto → Kind → List InfraTable
unfolding filter
get_infra_object_protos_by_type infra_proto kind =
    map (λ (o : InfraObjectProto). kind.reread o.infra_object)
      (filter (λ (o : InfraObjectProto). same_class o.infra_object_class_type kind.class_type)
        infra_proto.infra_objects)

abbrev pub created : Kind → InfraTable → InfraObjectDiff
created kind e = record {
  name = table_name e;
  infra_object_type = kind.word;
  current_infra_object = none;
  new_infra_object = some e;
  infra_object_property_diffs = [];
  transition_type = create;
}

abbrev pub deleted : Kind → InfraTable → InfraObjectDiff
deleted kind e = record {
  name = table_name e;
  infra_object_type = kind.word;
  current_infra_object = some e;
  new_infra_object = none;
  infra_object_property_diffs = [];
  transition_type = delete;
}

-- `[_e for _e in objs if _e.name == e.name][0]`, and its comparison with `e`
unfoldable pub compared : Kind → List InfraTable → InfraTable → Result InfraObjectDiff
unfolding find_first diff_between
compared kind objs e = elim (find_first (λ o. table_name o == table_name e) objs) [
  | none ↦ err index_error
  | some current ↦ diff_between current e kind.word
]

-- A turn of the outer loop of `diff_infra_protos`.
unfoldable pub diff_kind : Kind → List InfraTable → List InfraTable → Result (List InfraObjectDiff)
unfolding tag_infra_proto_objects_for_keep_delete_add compared
diff_kind kind current_infra_objects new_infra_objects =
    let tagged =
      tag_infra_proto_objects_for_keep_delete_add current_infra_objects new_infra_objects in
    traverse (compared kind current_infra_objects) tagged.objs_to_keep >>= λ kept.
    ok (map (created kind) tagged.objs_to_add ++ map (deleted kind) tagged.objs_to_delete ++ kept)

unfoldable pub diff_by_kind : List Kind → InfraProto → InfraProto → Result (List InfraObjectDiff)
unfolding diff_kind get_infra_object_protos_by_type
diff_by_kind [] current new = ok []
diff_by_kind (kind ∷ kinds) current new =
    diff_kind kind (get_infra_object_protos_by_type current kind)
      (get_infra_object_protos_by_type new kind)
    >>= λ ds. diff_by_kind kinds current new >>= λ rest. ok (ds ++ rest)

unfoldable pub diff_infra_protos : InfraProto → InfraProto → Result (List InfraObjectDiff)
unfolding diff_by_kind
diff_infra_protos current new = diff_by_kind (datastores ∷ dynamodbs ∷ sqlites ∷ []) current new

-- A call of a table's `teardown` or `update`.
pub data TableCall : Type 0 where
  tears_down updates : InfraTable → TableCall

-- `InfraObject.from_proto(o)`, which refuses `None`.
unfoldable pub rebuilt : (InfraTable → TableCall) → Option InfraTable → Result (List TableCall)
rebuilt call none = err feast_invalid_infra_object_type
rebuilt call (some t) = ok (call t ∷ [])

-- The body of the loop of `InfraDiff.update`, by the calls that it makes.
unfoldable pub apply_infra_object_diff : InfraObjectDiff → Result (List TableCall)
unfolding rebuilt
apply_infra_object_diff d = elim d.transition_type [
  | delete ↦ rebuilt tears_down d.current_infra_object
  | update ↦ rebuilt tears_down d.current_infra_object
  | create ↦ rebuilt updates d.new_infra_object
  | unknown ↦ ok []
  | unchanged ↦ ok []
]

-- What a loop does whose first turn makes calls or raises, and whose other turns do what is given.
unfoldable pub and_later :
    Result (List TableCall)
    → List TableCall × Result (Unit {0})
    → List TableCall × Result (Unit {0})
and_later (err e) later = ([], err e)
and_later (ok calls) later = (calls ++ later.0, later.1)

-- `InfraDiff.update`: the calls made until the end or an exception, and how it ended.
unfoldable pub update_infra : List InfraObjectDiff → List TableCall × Result (Unit {0})
unfolding apply_infra_object_diff and_later
update_infra [] = ([], ok tt)
update_infra (d ∷ ds) = and_later (apply_infra_object_diff d) (update_infra ds)
