-- ===== src/FeatureStore/References.antt =====
-- References to features, "view:feature", and the checks on them: `_get_features`,
-- `_validate_feature_refs`, `_validate_entity_values`, `_get_columnar_entity_values`,
-- `get_needed_request_data` and `ensure_request_data_values_exist` of sdk/python/feast/feature_store.py.
pub mod Grouping
pub mod Names
pub mod Held
pub mod Admission
pub mod Known
pub mod Returned
use feast.Base.{
  ℕ, suc, ◌+◌, String, Bool, true, false, not, ◌||◌, ◌≡◌, ◌↔◌, refl, arith, Option, none, some,
  List, [], ◌∷◌, ◌++◌, map, Result, ok, err, ◌>>=◌, ◌>>◌, value_error, index_error, key_error, ◌==◌,
  string_eq, nat_eq, filter, any, traverse, if◌then◌else◌, ltb, length, Bool-cases, inl, inr,
  feature_name_collision, feature_view_not_found_anywhere, data_source_repeat_names,
  request_data_not_found,
}
use feast.Base.Text.{str_concat, split_on, ends_with}
use feast.Base.Dict.{Dict, lookup, insert}
use feast.Field.{Field}
use feast.Types.{ValueType, to_value_type}
use feast.Projection.{FeatureViewProjection, name_to_use, get_feature}
use feast.RequestSource.{RequestSource}
use feast.FeatureView.{FeatureView, contains, all_distinct}
use feast.OnDemandFeatureView.{OnDemandFeatureView}
use feast.RequestFeatureView.{RequestFeatureView}
use feast.FeatureService.{FeatureService}

-- `Counter(xs)`
unfoldable pub counter : List String → Dict String ℕ → Dict String ℕ
unfolding lookup insert
counter [] acc = acc
counter (x ∷ xs) acc = counter xs (insert x (elim (lookup x acc) [ none ↦ 1 | some n ↦ suc n ]) acc)

-- `[x for x, occurrences in Counter(xs).items() if occurrences > 1]`
unfoldable pub collided : List String → List String
unfolding counter filter
collided xs = map (λ (p : String × ℕ). p.0) (filter (λ (p : String × ℕ). ltb 1 p.1) (counter xs []))

-- `ref.split(":")`
abbrev pub parts : String → List String
parts ref = split_on 58 ref

-- `ref.split(":")[1]`
unfoldable pub feature_name_of : String → Result String
unfolding split_on
feature_name_of ref = elim (parts ref) [ _ ∷ name ∷ _ ↦ ok name | _ ↦ err index_error ]

unfoldable pub refs_ending : List String → List String → List String
unfolding filter ends_with
refs_ending refs [] = []
refs_ending refs (name ∷ names) =
    filter (λ ref. ends_with ref (str_concat ":" name)) refs ++ refs_ending refs names

unfoldable pub collided_refs : List String → Bool → Result (List String)
unfolding collided feature_name_of refs_ending
collided_refs refs true = ok (collided refs)
collided_refs refs false =
    traverse feature_name_of refs >>= λ names. ok (refs_ending refs (collided names))

-- `if len(refs) > 0: raise FeatureNameCollisionError(...)`
unfoldable pub refuse_any : List String → Bool → Result (Unit {0})
refuse_any [] full_feature_names = ok tt
refuse_any (r ∷ rs) full_feature_names = err (feature_name_collision (r ∷ rs) full_feature_names)

-- `_validate_feature_refs`
unfoldable pub validate_feature_refs : List String → Bool → Result (Unit {0})
unfolding collided_refs refuse_any
validate_feature_refs refs full_feature_names =
    collided_refs refs full_feature_names >>= λ rs. refuse_any rs full_feature_names

-- `s.add(x)`; a set is the list of its elements, the oldest first.
unfoldable pub add_element : String → List String → List String
unfolding contains
add_element x xs = if contains xs x then xs else xs ++ x ∷ []

unfoldable pub add_elements : List String → List String → List String
unfolding add_element
add_elements [] names = names
add_elements (x ∷ xs) names = add_elements xs (add_element x names)

-- `_validate_entity_values`: the set of the lengths of the columns has one element.
unfoldable pub validate_entity_values : {V : Type 0} → Dict String (List V) → Result ℕ
unfolding any
validate_entity_values [] = err (key_error "pop from an empty set")
validate_entity_values ((k, v) ∷ rest) =
    if any (λ (p : String × List _). not (length p.1 == length v)) rest
    then err (value_error "All entity rows must have the same columns.")
    else ok (length v)

-- The features of a service from the registry, as references.
unfoldable pub service_refs : List FeatureViewProjection → List String
unfolding name_to_use
service_refs [] = []
service_refs (p ∷ ps) =
    map (λ (f : Field). str_concat (name_to_use p) (str_concat ":" f.name)) p.features
    ++ service_refs ps

-- `_get_features` on a list of references, and on a service that the registry has found.
unfoldable pub get_features : List String → Result (List String)
get_features [] = err (value_error "No features specified for retrieval")
get_features (f ∷ fs) = ok (f ∷ fs)

-- `_get_columnar_entity_values`: the rows become columns, by `res[key].append(value)`.
module _ {V : Type 0} where
  unfoldable pub append_row : Dict String V → Dict String (List V) → Dict String (List V)
  unfolding lookup insert
  append_row [] res = res
  append_row ((key, value) ∷ row) res =
      append_row row
        (insert key (elim (lookup key res) [ none ↦ value ∷ [] | some vs ↦ vs ++ value ∷ [] ]) res)

  unfoldable pub append_rows : List (Dict String V) → Dict String (List V) → Dict String (List V)
  unfolding append_row
  append_rows [] res = res
  append_rows (row ∷ rows) res = append_rows rows (append_row row res)

  unfoldable pub get_columnar_entity_values :
      Option (List (Dict String V)) → Option (Dict String (List V)) → Result (Dict String (List V))
  unfolding append_rows
  get_columnar_entity_values (some rowise) none = ok (append_rows rowise [])
  get_columnar_entity_values none (some columnar) = ok columnar
  get_columnar_entity_values rowise columnar = err (
      value_error "Exactly one of `columnar_entity_values` and `rowise_entity_values` must be set.")

-- The names of a request source enter a set of names, if each has a type.
unfoldable pub add_schema : List Field → List String → Result (List String)
unfolding add_element to_value_type
add_schema [] names = ok names
add_schema (f ∷ fs) names = to_value_type f.dtype >>= λ _. add_schema fs (add_element f.name names)

-- The names of `OnDemandFeatureView.get_request_data_schema`
unfoldable pub add_request_sources : Dict String RequestSource → List String → Result (List String)
unfolding add_schema
add_request_sources [] names = ok names
add_request_sources ((_, source) ∷ rest) names =
    add_schema source.schema names >>= add_request_sources rest

unfoldable pub needed_request_data :
    List (OnDemandFeatureView × List String) → List String → Result (List String)
unfolding add_request_sources
needed_request_data [] names = ok names
needed_request_data ((odfv, _) ∷ rest) names =
    add_request_sources odfv.source_request_sources names >>= needed_request_data rest

unfoldable pub needed_request_fv_features :
    List (RequestFeatureView × List String) → List String → List String
unfolding add_elements
needed_request_fv_features [] names = names
needed_request_fv_features ((request_fv, _) ∷ rest) names =
    needed_request_fv_features rest
      (add_elements (map (λ (f : Field). f.name) request_fv.features) names)

-- `get_needed_request_data`
unfoldable pub get_needed_request_data :
    List (OnDemandFeatureView × List String)
    → List (RequestFeatureView × List String)
    → Result (List String × List String)
unfolding needed_request_data needed_request_fv_features
get_needed_request_data grouped_odfv_refs grouped_request_fv_refs =
    needed_request_data grouped_odfv_refs [] >>= λ names.
    ok (names, needed_request_fv_features grouped_request_fv_refs [])

-- `ensure_request_data_values_exist` compares only the numbers of names.
unfoldable pub ensure_request_data_values_exist :
    {V : Type 0} → List String → List String → Dict String (List V) → Result (Unit {0})
unfolding filter contains
ensure_request_data_values_exist names fv_features request_data_features =
    if length names + length fv_features == length request_data_features
    then ok tt
    else err (
        request_data_not_found (
          filter (λ x. not (contains (map (λ (p : String × List _). p.0) request_data_features) x))
            (names ++ fv_features)))
