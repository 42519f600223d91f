-- ===== src/Diff/Tagging.antt =====
-- The comparison of the objects of the registry with those of a repository: `tag_objects_for_keep_delete_update_add`,
-- `diff_registry_objects` and `diff_between` of sdk/python/feast/diff/registry_diff.py, for the objects of one
-- type.
use feast.Base.{
  String, Bool, not, Option, none, some, List, [], ◌∷◌, ◌++◌, map, Result, ok, err, ◌>>=◌,
  index_error, any, filter, traverse, ◌==◌, string_eq, option_eq, if◌then◌else◌,
}
use feast.Base.Text.{str_concat}
use feast.Base.Dict.{Dict}
use feast.Diff.{TransitionType, create, delete, update, unchanged, PropertyDiff}
use feast.Diff.Registry.{ObjectDiff}

-- The value of a field of a message: a message that is not set is `none`. A user's function has fields of
-- its own.
pub data FieldValue : Type 0 where
  plain : Option String → FieldValue
  function_value : Dict String String → FieldValue

-- What the diff asks of a class of objects: the name, the fields of its message in the order of the
-- descriptor, which the generated code lists, and `__eq__`.
pub record Objects (A : Type 0) : Type 0 where
  pub name_of : A → String
  pub fields : A → Result (Dict String FieldValue)
  pub same : A → A → Result Bool

-- The loop over the fields of a user's function.
unfoldable pub function_diffs : String → Dict String String → Dict String String → List PropertyDiff
unfolding str_concat
function_diffs field ((name, v) ∷ current) ((_, w) ∷ new) =
    let rest = function_diffs field current new in
    if name == "body"
    then rest
    else if v == w
    then rest
    else record {
      property_name = str_concat field (str_concat "." name);
      val_existing = some v;
      val_declared = some w;
    }
      ∷ rest
function_diffs field current new = []

-- The differences of one field.
unfoldable pub field_diff : String → FieldValue → FieldValue → List PropertyDiff
unfolding function_diffs
field_diff name (plain v) (plain w) =
    if v == w then [] else record { property_name = name; val_existing = v; val_declared = w } ∷ []
field_diff name (function_value f) (function_value g) = function_diffs name f g
field_diff name v w = []

-- The loop of `diff_registry_objects` over the fields.
unfoldable pub field_diffs : Dict String FieldValue → Dict String FieldValue → List PropertyDiff
unfolding field_diff
field_diffs ((name, v) ∷ current) ((_, w) ∷ new) =
    let rest = field_diffs current new in
    if name == "project" then rest else field_diff name v w ++ rest
field_diffs current new = []

unfoldable pub transition_for : List PropertyDiff → TransitionType
transition_for [] = unchanged
transition_for (d ∷ ds) = update

-- The four sets of `tag_objects_for_keep_delete_update_add`.
pub record Tagged (A : Type 0) : Type 0 where
  pub objs_to_keep : List A
  pub objs_to_delete : List A
  pub objs_to_update : List A
  pub objs_to_add : List A

-- `set_of` gives the elements of a set in its order.
module _ {A : Type 0} (objects : Objects A) (set_of : List A → List A) where
  -- `obj.name in names`
  unfoldable pub among : List A → String → Bool
  unfolding any
  among objs n = any (λ e. objects.name_of e == n) objs

  -- `[obj for obj in objs if obj.name]`
  unfoldable pub with_names : List A → List A
  unfolding filter
  with_names objs = filter (λ e. not (objects.name_of e == "")) objs

  unfoldable pub tag_objects_for_keep_delete_update_add : List A → List A → Tagged A
  unfolding among with_names filter
  tag_objects_for_keep_delete_update_add existing desired =
      let existing_objs = with_names existing in
      let desired_objs = with_names desired in
      record {
        objs_to_add =
            set_of (filter (λ e. not (among existing_objs (objects.name_of e))) desired_objs);
        objs_to_update =
            set_of (filter (λ e. among existing_objs (objects.name_of e)) desired_objs);
        objs_to_keep = set_of (filter (λ e. among desired_objs (objects.name_of e)) existing_objs);
        objs_to_delete =
            set_of (filter (λ e. not (among desired_objs (objects.name_of e))) existing_objs);
      }

  unfoldable pub diff_registry_objects : A → A → Result (ObjectDiff A)
  unfolding field_diffs transition_for
  diff_registry_objects current new = objects.fields current >>= λ current_spec.
      objects.fields new >>= λ new_spec. objects.same current new >>= λ equal.
      let diffs = if equal then [] else field_diffs current_spec new_spec in
      ok (record {
        name = objects.name_of new;
        current_feast_object = some current;
        new_feast_object = some new;
        feast_object_property_diffs = diffs;
        transition_type = transition_for diffs;
      })

  unfoldable pub created : A → ObjectDiff A
  created e = record {
    name = objects.name_of e;
    current_feast_object = none;
    new_feast_object = some e;
    feast_object_property_diffs = [];
    transition_type = create;
  }

  unfoldable pub deleted : A → ObjectDiff A
  deleted e = record {
    name = objects.name_of e;
    current_feast_object = some e;
    new_feast_object = none;
    feast_object_property_diffs = [];
    transition_type = delete;
  }

  -- The object of that name that is kept, and its difference.
  unfoldable pub updated : List A → A → Result (ObjectDiff A)
  unfolding filter diff_registry_objects
  updated objs_to_keep e =
      elim (filter (λ k. objects.name_of k == objects.name_of e) objs_to_keep) [
        | [] ↦ err index_error
        | current_obj ∷ _ ↦ diff_registry_objects current_obj e
      ]

  -- The turn of the loop of `diff_between` for the objects of one type.
  unfoldable pub diff_objects : List A → List A → Result (List (ObjectDiff A))
  unfolding tag_objects_for_keep_delete_update_add created deleted updated
  diff_objects existing desired =
      let tagged = tag_objects_for_keep_delete_update_add existing desired in
      traverse (updated tagged.objs_to_keep) tagged.objs_to_update >>= λ updates.
      ok (map created tagged.objs_to_add ++ map deleted tagged.objs_to_delete ++ updates)
