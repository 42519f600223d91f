-- ===== src/Entity.antt =====
-- `Entity` of sdk/python/feast/entity.py. A timestamp is a count of microseconds.
use feast.Base.{
  ℕ, String, Bool, ◌&&◌, ◌≡◌, Option, none, some, List, [], ◌∷◌, Result, ok, err, ◌>>=◌, require,
  ◌==◌, string_eq, not, value_error,
}
use feast.Base.Dict.{Dict, dict_eq}
use feast.Types.{ValueType, value, value_type_of, value_type_eq}
use feast.Types.RoundTrip.{value_type_of-value}
use feast.Proto.{Proto, set_project}

pub record Entity : Type 0 where
  pub name : String
  pub value_type : ValueType
  pub join_key : String
  pub description : String
  pub tags : Dict String String
  pub owner : String
  pub created_timestamp : Option ℕ
  pub last_updated_timestamp : Option ℕ

pub record EntityBody : Type 0 where
  pub value_type : ℕ
  pub join_key : String
  pub description : String
  pub tags : Dict String String
  pub owner : String
  pub created_timestamp : Option ℕ
  pub last_updated_timestamp : Option ℕ

abbrev pub EntityProto : Type 0
EntityProto = Proto EntityBody

-- The join key that `Entity.__init__` takes: at most one may be given, and the name stands in.
unfoldable pub join_key_of : String → Option (List String) → Result String
join_key_of name none = ok name
join_key_of name (some []) = ok name
join_key_of name (some (k ∷ [])) = ok k
join_key_of name (some (k ∷ l ∷ ks)) =
    err (value_error "An entity may only have a single join key.")

abbrev or_unknown : Option ValueType → ValueType
or_unknown none = ValueType.unknown
or_unknown (some t) = t

-- `Entity.__init__`
unfoldable pub make_entity :
    String
    → Option (List String)
    → Option ValueType
    → String
    → Dict String String
    → String
    → Result Entity
unfolding join_key_of
make_entity name join_keys value_type description tags owner = do
  join_key ← join_key_of name join_keys
  ok (record {
    name = name;
    value_type = or_unknown value_type;
    join_key = join_key;
    description = description;
    tags = tags;
    owner = owner;
    created_timestamp = none;
    last_updated_timestamp = none;
  })

-- `Entity.is_valid`. Every member of an enum is true, so the second check never fails.
unfoldable pub is_valid : Entity → Result (Unit {0})
is_valid e = require (not (e.name == "")) (value_error "The entity does not have a name.")

-- `Entity.__eq__`
unfoldable pub entity_eq : Entity → Entity → Bool
entity_eq a b =
    a.name == b.name
    && a.value_type == b.value_type
    && a.join_key == b.join_key
    && a.description == b.description
    && dict_eq a.tags b.tags
    && a.owner == b.owner

-- `Entity.to_proto`
unfoldable pub to_proto : Entity → EntityProto
to_proto e = record {
  name = e.name;
  project = "";
  body = record {
    value_type = value e.value_type;
    join_key = e.join_key;
    description = e.description;
    tags = e.tags;
    owner = e.owner;
    created_timestamp = e.created_timestamp;
    last_updated_timestamp = e.last_updated_timestamp;
  };
}

-- `Entity.from_proto`
unfoldable pub from_proto : EntityProto → Result Entity
unfolding make_entity
from_proto p = do
  e ←
      make_entity p.name (some (p.body.join_key ∷ [])) none p.body.description p.body.tags
        p.body.owner
  t ← value_type_of p.body.value_type
  ok (record e {
    value_type = t;
    created_timestamp = p.body.created_timestamp;
    last_updated_timestamp = p.body.last_updated_timestamp;
  })

-- An entity is read back from its message unchanged, whatever project the registry wrote into it.
pub from_proto-to_proto_entity :
    (e : Entity) (project : String) → from_proto (set_project project (to_proto e)) ≡ ok e
unfolding to_proto from_proto
from_proto-to_proto_entity e project = rw value_type_of-value
