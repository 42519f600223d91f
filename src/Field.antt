-- ===== src/Field.antt =====
-- `Field` of sdk/python/feast/field.py: a named column with its Feast type.
use feast.Base.{
  ℕ, String, Bool, ◌&&◌, ◌≡◌, arith, List, Result, ok, ◌>>=◌, traverse, traverse-traverse,
  Result-cases, inl, inr, ◌==◌, string_eq,
}
use feast.Base.Dict.{Dict, dict_eq}
use feast.Types.{
  FeastType, to_value_type, from_value_type, value, value_type_of, feast_type_eq, ValueType,
}
use feast.Types.RoundTrip.{value_type_of-value, from_value_type-to_value_type}

pub record Field : Type 0 where
  pub name : String
  pub dtype : FeastType
  pub description : String
  pub tags : Dict String String

-- The message `Feature` of protos/feast/core/Feature.proto.
pub record FieldProto : Type 0 where
  pub name : String
  pub value_type : ℕ
  pub description : String
  pub tags : Dict String String

-- `Field.__eq__`
unfoldable pub field_eq : Field → Field → Bool
field_eq a b =
    a.name == b.name
    && a.dtype == b.dtype
    && a.description == b.description
    && dict_eq a.tags b.tags

-- `Field.to_proto`
unfoldable pub to_proto : Field → Result FieldProto
to_proto f = do
  t ← to_value_type f.dtype
  ok (record { name = f.name; value_type = value t; description = f.description; tags = f.tags })

-- `Field.from_proto`
unfoldable pub from_proto : FieldProto → Result Field
from_proto p = do
  t ← value_type_of p.value_type
  dtype ← from_value_type t
  ok (record { name = p.name; dtype = dtype; description = p.description; tags = p.tags })

-- What a value type stands for is given back, once the type has been written as a number.
dtype-round_trip :
    (f : FeastType) (t : ValueType)
    → to_value_type f ≡ ok t
    → (value_type_of (value t) >>= from_value_type) ≡ ok f
dtype-round_trip f t h = simp value_type_of-value (from_value_type-to_value_type f t h)

-- A field whose message can be written is read back from it unchanged.
pub from_proto-to_proto_field :
    (f : Field) (p : FieldProto) → to_proto f ≡ ok p → from_proto p ≡ ok f
unfolding to_proto from_proto
from_proto-to_proto_field f p h = elim (Result-cases (to_value_type f.dtype)) [
  | inl (e, q) ↦ ground arith
  | inr (t, q) ↦ ground (arith, dtype-round_trip f.dtype t q)
]

-- The same for a list of fields.
pub from_proto-to_proto_all :
    (fs : List Field) (ps : List FieldProto)
    → traverse to_proto fs ≡ ok ps
    → traverse from_proto ps ≡ ok fs
from_proto-to_proto_all = traverse-traverse to_proto from_proto from_proto-to_proto_field
