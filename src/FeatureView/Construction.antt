-- ===== src/FeatureView/Construction.antt =====
-- What `FeatureView.__init__` of sdk/python/feast/feature_view.py accepts, and what the copies that
-- queries use keep of a view.
use feast.Base.{
  ℕ, String, Bool, true, false, ◌≡◌, refl, arith, Option, none, some, List, [], ◌∷◌, map, Result,
  ok, err, All, Result-cases, Bool-cases, inl, inr, ltb, ◌≤◌, ◌⊎◌, string_eq, if◌then◌else◌, any,
  ◌==◌, nat_eq, ok-injective, >>=-eq-ok, require-eq-ok, require, sym,
}
use feast.Base.Dict.{Dict, lookup}
use feast.Field.{Field}
use feast.Entity.{Entity}
use feast.DataSource.{DataSource, Source}
use feast.FeatureView.{
  FeatureView, contains, all_distinct, split_source, split_schema, check_entity_column,
  check_field_mapping, make_feature_view, max_end, most_recent_end_time, names_or_dummy,
}

abbrev pub keys_of : List Entity → List String
keys_of entities = map (λ (e : Entity). e.join_key) entities

-- How a schema was divided: each column goes to the one list or to the other, in order, by whether
-- its name is a join key, and an entity column has passed the check against its entity.
pub data Divided (entities : List Entity) : List Field → List Field → List Field → Type 0 where
  nil : Divided entities [] [] []
  column :
      (f : Field) {schema columns features : List Field}
      → contains (keys_of entities) f.name ≡ true
      → check_entity_column entities f ≡ ok tt
      → Divided entities schema columns features
      → Divided entities (f ∷ schema) (f ∷ columns) features
  feature :
      (f : Field) {schema columns features : List Field}
      → contains (keys_of entities) f.name ≡ false
      → Divided entities schema columns features
      → Divided entities (f ∷ schema) columns (f ∷ features)

-- One step: the pairs that `split_schema` builds for a schema and for the schema with a column in
-- front.
abbrev Splits : List Entity → List Field → Result (List Field × List Field) → Type 0
Splits entities schema (ok r) = Divided entities schema r.0 r.1
Splits entities schema (err e) = Unit

split_schema-Splits :
    (entities : List Entity) (schema : List Field)
    → Splits entities schema (split_schema entities schema)
unfolding split_schema
split_schema-Splits entities [] = nil
split_schema-Splits entities (f ∷ schema) = elim (Result-cases (split_schema entities schema)) [
  | inl (e, q) ↦ elim (Bool-cases (contains (keys_of entities) f.name)) [
    | inr other ↦ rw (q, other) tt
    | inl key ↦ elim (Result-cases (check_entity_column entities f)) [
      | inl (e', bad) ↦ rw (q, key, bad) tt
      | inr (u, good) ↦ rw (q, key, good) tt
    ]
  ]
  | inr (r, q) ↦
      let ih : Divided entities schema r.0 r.1 = rw q at (split_schema-Splits entities schema) in
      elim (Bool-cases (contains (keys_of entities) f.name)) [
        | inr other ↦ rw (q, other) (feature f other ih)
        | inl key ↦ elim (Result-cases (check_entity_column entities f)) [
          | inl (e', bad) ↦ rw (q, key, bad) tt
          | inr (u, good) ↦ rw (q, key, good) (column f key good ih)
        ]
      ]
]

-- The columns of the schema that the batch source maps to another name: none, where the check passes.
check_field_mapping-ok :
    (d : DataSource) (schema : List Field)
    → check_field_mapping d schema ≡ ok tt
    → All (λ (f : Field). lookup f.name d.field_mapping ≡ none) schema
unfolding check_field_mapping
check_field_mapping-ok d [] h = tt
check_field_mapping-ok d (f ∷ schema) h = ground (arith, check_field_mapping-ok d schema)

max_end-greatest :
    (t m : ℕ) (is : List (ℕ × ℕ))
    → max_end t is ≡ m
    → (t ≤ m) × All (λ i. i.1 ≤ m) is × ((m ≡ t) ⊎ (any (λ (i : ℕ × ℕ). i.1 == m) is ≡ true))
unfolding max_end any
max_end-greatest t m [] h = (omega arith, tt, inl (sym h))
max_end-greatest t m ((s, e) ∷ is) h =
    let (lower, all, some_end) = max_end-greatest (if ltb t e then e else t) m is h in
    (ground arith, (ground arith, all), ground arith)

-- The most recent end time is the greatest one: no interval ends later, and one ends then.
pub most_recent_end_time-greatest :
    (v : FeatureView) (t : ℕ)
    → most_recent_end_time v ≡ some t
    → All (λ i. i.1 ≤ t) v.materialization_intervals
      × (any (λ (i : ℕ × ℕ). i.1 == t) v.materialization_intervals ≡ true)
unfolding most_recent_end_time any
most_recent_end_time-greatest v t h = go v.materialization_intervals refl
  where
    go :
        (is : List (ℕ × ℕ))
        → v.materialization_intervals ≡ is
        → All (λ i. i.1 ≤ t) v.materialization_intervals
          × (any (λ (i : ℕ × ℕ). i.1 == t) v.materialization_intervals ≡ true)
    go [] e = ground arith
    go (i ∷ is) e =
        let (lower, all, some_end) = max_end-greatest i.1 t is (ground arith) in
        rw e ((lower, all), ground arith)

-- A feature view that can be made has the name and the entities asked for; its schema is divided
-- into entity columns and features, each in its order; no two entities share a join key; and no
-- column is one that the batch source maps to another name.
pub make_feature_view-ok :
    (name : String) (source : Source) (schema : List Field) (entities : List Entity)
    (ttl : Option ℕ) (online : Bool) (description : String) (tags : Dict String String)
    (owner : String) (v : FeatureView)
    → make_feature_view name source schema entities ttl online description tags owner ≡ ok v
    → (v.name ≡ name)
      × (v.entities ≡ names_or_dummy entities)
      × Divided entities schema v.entity_columns v.features
      × (all_distinct (keys_of entities) ≡ true)
      × All (λ (f : Field). lookup f.name v.batch_source.field_mapping ≡ none) schema
      × (v.materialization_intervals ≡ [])
unfolding make_feature_view
make_feature_view-ok name source schema entities ttl online description tags owner v h =
    let (sources, q0, h0) = >>=-eq-ok (split_source source) _ h in
    let (u, q1, h1) = >>=-eq-ok (require (all_distinct (keys_of entities)) _) _ h0 in
    let (r, q2, h2) = >>=-eq-ok (split_schema entities schema) _ h1 in
    let (u', q3, h3) = >>=-eq-ok (check_field_mapping sources.0 schema) _ h2 in
    rw (← ok-injective _ _ h3) (
      refl,
      refl,
      rw q2 at (split_schema-Splits entities schema),
      require-eq-ok _ _ u q1,
      check_field_mapping-ok sources.0 schema q3,
      refl,
    )
