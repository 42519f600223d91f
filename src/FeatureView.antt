-- ===== src/FeatureView.antt =====
-- `FeatureView` of sdk/python/feast/feature_view.py: construction and validation, equality, and the
-- copies that queries use. The messages are in FeatureView/Proto.antt.
pub mod Messages
pub mod Construction
use feast.Base.{
  ℕ, String, Bool, true, false, ◌&&◌, ◌||◌, not, ◌≡◌, refl, arith, Option, none, some, List, [],
  ◌∷◌, ◌++◌, Result, ok, err, ◌>>=◌, ◌>>◌, traverse, require, ◌==◌, string_eq, nat_eq, bool_eq,
  option_eq, if◌then◌else◌, value_error, assertion_error, any, All, map, filter, length, ◌and_then◌,
  ltb, bool_eq,
}
use feast.Base.Dict.{Dict, dict_eq, lookup}
use feast.Base.Sort.{sorted, list_eq}
use feast.Types.{FeastType, ValueType, from_value_type, value_type_eq, feast_type_eq}
use feast.Field.{Field, field_eq}
use feast.Projection.{FeatureViewProjection, from_definition}
use feast.DataSource.{
  DataSource, StreamSource, Source, batch, stream, data_source_eq, stream_source_eq, optional_eq,
}
use feast.Entity.{Entity}
use feast.BaseFeatureView.{BaseFeatureView, make_base, base_eq, same_fields}
use feast.BaseFeatureView

pub record FeatureView : Type 0 where
  pub base : BaseFeatureView
  pub open base use *
  pub entities : List String
  pub ttl : Option ℕ
  pub batch_source : DataSource
  pub stream_source : Option StreamSource
  pub entity_columns : List Field
  pub online : Bool
  pub materialization_intervals : List (ℕ × ℕ)

abbrev pub dummy_entity_name : String
dummy_entity_name = "__dummy"

-- What `FeatureView.__init__` makes of `source`: the batch source and the stream source.
unfoldable pub split_source : Source → Result (DataSource × Option StreamSource)
split_source (batch d) = ok (d, none)
split_source (stream s) = elim s.batch_source [
  | none ↦ err (value_error "A batch_source needs to be specified for stream source.")
  | some d ↦ ok (d, some s)
]

-- `x in xs`
unfoldable pub contains : List String → String → Bool
unfolding any
contains xs x = any (λ y. y == x) xs

-- `len(set(xs)) == len(xs)`
unfoldable pub all_distinct : List String → Bool
unfolding contains
all_distinct [] = true
all_distinct (x ∷ xs) = not (contains xs x) && all_distinct xs

-- The check of an entity column against the entities that have its name for a join key.
unfoldable pub check_entity_column : List Entity → Field → Result (Unit {0})
unfolding filter
check_entity_column entities field =
    elim (filter (λ (e : Entity). e.join_key == field.name) entities) [
      | [] ↦ err assertion_error
      | e ∷ rest ↦ elim rest [
        | _ ∷ _ ↦ err assertion_error
        | [] ↦ if e.value_type == ValueType.unknown then ok tt else do
          t ← from_value_type e.value_type
          require (t == field.dtype) (value_error "which does not match the inferred type.")
      ]
    ]

-- The loop over the schema: the entity columns, and the features.
unfoldable pub split_schema : List Entity → List Field → Result (List Field × List Field)
unfolding check_entity_column contains
split_schema entities [] = ok ([], [])
split_schema entities (field ∷ schema) =
    let rest = split_schema entities schema in
    if contains (map (λ (e : Entity). e.join_key) entities) field.name
    then (do
      check_entity_column entities field
      (columns, features) ← rest
      ok (field ∷ columns, features))
    else (do (columns, features) ← rest; ok (columns, field ∷ features))

-- The last loop: no column may be one that the batch source maps to another name.
unfoldable pub check_field_mapping : DataSource → List Field → Result (Unit {0})
unfolding lookup
check_field_mapping source [] = ok tt
check_field_mapping source (field ∷ schema) = do
  elim (lookup field.name source.field_mapping) [
    | none ↦ ok tt
    | some _ ↦ err (value_error "is mapped to another field for this data source.")
  ]
  check_field_mapping source schema

abbrev pub names_or_dummy : List Entity → List String
names_or_dummy [] = dummy_entity_name ∷ []
names_or_dummy (e ∷ es) = map (λ (e : Entity). e.name) (e ∷ es)

-- `FeatureView.__init__`
unfoldable pub make_feature_view :
    String
    → Source
    → List Field
    → List Entity
    → Option ℕ
    → Bool
    → String
    → Dict String String
    → String
    → Result FeatureView
unfolding split_source all_distinct split_schema check_field_mapping make_base
make_feature_view name source schema entities ttl online description tags owner = do
  (batch_source, stream_source) ← split_source source
  require (all_distinct (map (λ (e : Entity). e.join_key) entities))
      (value_error "A feature view should not have entities that share a join key.")
  (entity_columns, features) ← split_schema entities schema
  check_field_mapping batch_source schema
  ok (record {
    base = make_base name features description tags owner;
    entities = names_or_dummy entities;
    ttl = ttl;
    batch_source = batch_source;
    stream_source = stream_source;
    entity_columns = entity_columns;
    online = online;
    materialization_intervals = [];
  })

-- `FeatureView.join_keys`
unfoldable pub join_keys : FeatureView → List String
join_keys v = map (λ (f : Field). f.name) v.entity_columns

-- `FeatureView.ensure_valid`
unfoldable pub ensure_valid : FeatureView → Result (Unit {0})
unfolding BaseFeatureView.ensure_valid
ensure_valid v = do
  BaseFeatureView.ensure_valid v.base
  elim v.entities [ [] ↦ err (value_error "Feature view has no entities.") | _ ∷ _ ↦ ok tt ]

-- `FeatureView.__eq__`; the comparison of the sources may raise.
unfoldable pub feature_view_eq : FeatureView → FeatureView → Result Bool
unfolding base_eq same_fields data_source_eq stream_source_eq optional_eq sorted list_eq
feature_view_eq a b =
    (base_eq a.base b.base
      && list_eq (λ s t. s == t) (sorted (λ s. s) a.entities) (sorted (λ s. s) b.entities)
      && a.ttl == b.ttl
      && a.online == b.online)
    and_then (do
      batch_same ← data_source_eq a.batch_source b.batch_source
      batch_same and_then (do
        stream_same ← optional_eq stream_source_eq a.stream_source b.stream_source
        ok (stream_same && same_fields a.entity_columns b.entity_columns)))

abbrev source_of : FeatureView → Source
source_of v = elim v.stream_source [ none ↦ batch v.batch_source | some s ↦ stream s ]

-- `FeatureView.__copy__`. The order of `schema`, a set, is of no effect here.
unfoldable pub copy : FeatureView → Result FeatureView
unfolding make_feature_view
copy v = do
  fv ←
      make_feature_view v.name (source_of v) (v.entity_columns ++ v.features) [] v.ttl v.online ""
        v.tags ""
  ok (record fv {
    base = record (fv.base) { features = v.features; projection = v.projection };
    entities = v.entities;
    entity_columns = v.entity_columns;
  })

-- `BaseFeatureView.with_name`
unfoldable pub with_name : FeatureView → String → Result FeatureView
unfolding copy
with_name v name = do
  cp ← copy v
  let p = cp.projection
  ok (record cp { base = record (cp.base) { projection = record p { name_alias = some name } } })

-- `FeatureView.with_join_key_map`
unfoldable pub with_join_key_map : FeatureView → Dict String String → Result FeatureView
unfolding copy
with_join_key_map v join_key_map = do
  cp ← copy v
  let p = cp.projection
  ok (record cp {
    base = record (cp.base) { projection = record p { join_key_map = join_key_map } };
  })

-- `max` of a list that is not empty.
unfoldable pub max_end : ℕ → List (ℕ × ℕ) → ℕ
max_end t [] = t
max_end t ((_, e) ∷ rest) = max_end (if ltb t e then e else t) rest

-- `FeatureView.most_recent_end_time`
unfoldable pub most_recent_end_time : FeatureView → Option ℕ
unfolding max_end
most_recent_end_time v = elim v.materialization_intervals [
  | [] ↦ none
  | i ∷ rest ↦ some (max_end i.1 rest)
]
