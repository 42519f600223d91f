-- ===== src/RequestSource.antt =====
-- `RequestSource` of sdk/python/feast/data_source.py: the fields that a request for online features
-- carries itself.
use feast.Base.{
  String, Bool, true, ◌&&◌, ◌≡◌, refl, arith, List, [], ◌∷◌, ◌++◌, Result, ok, ◌>>=◌, traverse,
  Result-cases, inl, inr, ◌==◌, string_eq,
}
use feast.Base.Dict.{Dict, dict_eq}
use feast.Field
use feast.Field.{Field, FieldProto, field_eq, from_proto-to_proto_all}

pub record RequestSource : Type 0 where
  pub name : String
  pub schema : List Field
  pub description : String
  pub tags : Dict String String
  pub owner : String

pub record RequestSourceProto : Type 0 where
  pub name : String
  pub schema : List FieldProto
  pub description : String
  pub tags : Dict String String
  pub owner : String

-- `for field1, field2 in zip(xs, ys): if field1 != field2: return False`
unfoldable pub zip_eq : List Field → List Field → Bool
zip_eq (x ∷ xs) (y ∷ ys) = field_eq x y && zip_eq xs ys
zip_eq _ _ = true

-- `RequestSource.__eq__`. Of the base class's fields a request source leaves the columns empty.
unfoldable pub request_source_eq : RequestSource → RequestSource → Bool
unfolding zip_eq
request_source_eq a b =
    a.name == b.name
    && a.description == b.description
    && dict_eq a.tags b.tags
    && a.owner == b.owner
    && zip_eq a.schema b.schema

-- `RequestSource.to_proto`, on a schema that is a list of fields.
unfoldable pub to_proto : RequestSource → Result RequestSourceProto
to_proto s = do
  schema ← traverse Field.to_proto s.schema
  ok (record {
    name = s.name;
    schema = schema;
    description = s.description;
    tags = s.tags;
    owner = s.owner;
  })

-- `RequestSource.from_proto`
unfoldable pub from_proto : RequestSourceProto → Result RequestSource
from_proto p = do
  schema ← traverse Field.from_proto p.schema
  ok (record {
    name = p.name;
    schema = schema;
    description = p.description;
    tags = p.tags;
    owner = p.owner;
  })

-- A request source whose message can be written is read back from it unchanged.
pub from_proto-to_proto_request :
    (s : RequestSource) (p : RequestSourceProto) → to_proto s ≡ ok p → from_proto p ≡ ok s
unfolding to_proto from_proto
from_proto-to_proto_request s p h = elim (Result-cases (traverse Field.to_proto s.schema)) [
  | inl (e, q) ↦ ground arith
  | inr (schema, q) ↦ ground (arith, from_proto-to_proto_all s.schema schema q)
]

zip_eq-append : (xs ys : List Field) → zip_eq xs xs ≡ true → zip_eq xs (xs ++ ys) ≡ true
unfolding zip_eq
zip_eq-append [] ys h = refl
zip_eq-append (x ∷ xs) ys h = ground (arith, zip_eq-append xs ys)

-- The comparison stops at the shorter schema: a source that equals itself also equals the source
-- with any further fields at the end of its schema.
pub request_source_eq-append :
    (s : RequestSource) (more : List Field)
    → request_source_eq s s ≡ true
    → request_source_eq s (record s { schema = s.schema ++ more }) ≡ true
unfolding request_source_eq
request_source_eq-append s more h = ground (arith, zip_eq-append s.schema more)
