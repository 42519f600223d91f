-- ===== src/Types.antt =====
-- `ValueType` of sdk/python/feast/value_type.py, and the Feast types of sdk/python/feast/types.py
-- with their conversions. An enum's `E[name]` and `E(value)` search the enum's members.
pub mod RoundTrip
use Prim.Native.String.{◌++◌ as ◌<>◌}
use feast.Base.{
  ℕ, String, Bool, List, [], ◌∷◌, Option, none, some, Result, ok, err, ◌>>=◌, ◌>>◌, key_error,
  value_error, assertion_error, false, Eq, ◌==◌, nat_eq, string_eq, require, find_first, any,
}
use feast.Base.Dict.{Dict, lookup}

pub data ValueType : Type 0 where
  unknown bytes string int32 int64 double float bool unix_timestamp : ValueType
  bytes_list string_list int32_list int64_list double_list float_list bool_list : ValueType
  unix_timestamp_list null : ValueType

-- `ValueType.__members__`, with the values.
unfoldable pub members : List (String × ValueType × ℕ)
members =
    ("UNKNOWN", ValueType.unknown, 0)
    ∷ ("BYTES", ValueType.bytes, 1)
    ∷ ("STRING", ValueType.string, 2)
    ∷ ("INT32", ValueType.int32, 3)
    ∷ ("INT64", ValueType.int64, 4)
    ∷ ("DOUBLE", ValueType.double, 5)
    ∷ ("FLOAT", ValueType.float, 6)
    ∷ ("BOOL", ValueType.bool, 7)
    ∷ ("UNIX_TIMESTAMP", ValueType.unix_timestamp, 8)
    ∷ ("BYTES_LIST", ValueType.bytes_list, 11)
    ∷ ("STRING_LIST", ValueType.string_list, 12)
    ∷ ("INT32_LIST", ValueType.int32_list, 13)
    ∷ ("INT64_LIST", ValueType.int64_list, 14)
    ∷ ("DOUBLE_LIST", ValueType.double_list, 15)
    ∷ ("FLOAT_LIST", ValueType.float_list, 16)
    ∷ ("BOOL_LIST", ValueType.bool_list, 17)
    ∷ ("UNIX_TIMESTAMP_LIST", ValueType.unix_timestamp_list, 18)
    ∷ ("NULL", ValueType.null, 19)
    ∷ []

ValueType-discrete : Discrete ValueType
ValueType-discrete = hlevel

instance unfoldable pub value_type_eq : Eq ValueType
unfolding ValueType-discrete
value_type_eq = record { dec = ValueType-discrete }

-- `ValueType[name]`
unfoldable pub value_type_named : String → Result ValueType
unfolding members find_first string_eq
value_type_named name = elim (find_first (λ (n, _, _). n == name) members) [
  | none ↦ err (key_error name)
  | some (_, t, _) ↦ ok t
]

-- `ValueType(value)`
unfoldable pub value_type_of : ℕ → Result ValueType
unfolding members find_first nat_eq
value_type_of n = elim (find_first (λ (_, _, m). m == n) members) [
  | none ↦ err (value_error "is not a valid ValueType")
  | some (_, t, _) ↦ ok t
]

-- `t.value`
unfoldable pub value : ValueType → ℕ
unfolding members find_first value_type_eq
value t = elim (find_first (λ (_, u, _). u == t) members) [ none ↦ 0 | some (_, _, n) ↦ n ]

pub data PrimitiveFeastType : Type 0 where
  invalid bytes string int32 int64 float64 float32 bool unix_timestamp : PrimitiveFeastType

-- `p.name`
unfoldable pub name : PrimitiveFeastType → String
name PrimitiveFeastType.invalid = "INVALID"
name PrimitiveFeastType.bytes = "BYTES"
name PrimitiveFeastType.string = "STRING"
name PrimitiveFeastType.int32 = "INT32"
name PrimitiveFeastType.int64 = "INT64"
name PrimitiveFeastType.float64 = "FLOAT64"
name PrimitiveFeastType.float32 = "FLOAT32"
name PrimitiveFeastType.bool = "BOOL"
name PrimitiveFeastType.unix_timestamp = "UNIX_TIMESTAMP"

unfoldable pub primitive_feast_types_to_value_types : Dict String String
primitive_feast_types_to_value_types =
    ("INVALID", "UNKNOWN")
    ∷ ("BYTES", "BYTES")
    ∷ ("STRING", "STRING")
    ∷ ("INT32", "INT32")
    ∷ ("INT64", "INT64")
    ∷ ("FLOAT64", "DOUBLE")
    ∷ ("FLOAT32", "FLOAT")
    ∷ ("BOOL", "BOOL")
    ∷ ("UNIX_TIMESTAMP", "UNIX_TIMESTAMP")
    ∷ []

-- `PRIMITIVE_FEAST_TYPES_TO_VALUE_TYPES[p.name]`
unfoldable pub value_type_name : PrimitiveFeastType → Result String
unfolding primitive_feast_types_to_value_types lookup string_eq name
value_type_name p = elim (lookup (name p) primitive_feast_types_to_value_types) [
  | none ↦ err (key_error (name p))
  | some n ↦ ok n
]

-- `FeastType`: a primitive type, or an `Array` with its base type.
pub data FeastType : Type 0 where
  primitive : PrimitiveFeastType → FeastType
  array : FeastType → FeastType

unfoldable pub supported_base_types : List PrimitiveFeastType
supported_base_types =
    PrimitiveFeastType.invalid ∷ PrimitiveFeastType.string ∷ PrimitiveFeastType.bytes
    ∷ PrimitiveFeastType.bool ∷ PrimitiveFeastType.int32 ∷ PrimitiveFeastType.int64
    ∷ PrimitiveFeastType.float32 ∷ PrimitiveFeastType.float64 ∷ PrimitiveFeastType.unix_timestamp
    ∷ []

PrimitiveFeastType-discrete : Discrete PrimitiveFeastType
PrimitiveFeastType-discrete = hlevel

instance unfoldable pub primitive_eq : Eq PrimitiveFeastType
unfolding PrimitiveFeastType-discrete
primitive_eq = record { dec = PrimitiveFeastType-discrete }

-- `base_type in SUPPORTED_BASE_TYPES`: no array equals a primitive type.
unfoldable pub is_supported : FeastType → Bool
unfolding supported_base_types any primitive_eq
is_supported (primitive p) = any (λ q. q == p) supported_base_types
is_supported (array b) = false

-- `Array(base_type)`
unfoldable pub make_array : FeastType → Result FeastType
unfolding is_supported
make_array base_type = do
  require (is_supported base_type)
      (value_error "is currently not supported as a base type for Array.")
  ok (array base_type)

-- `t.to_value_type()`, of both classes.
unfoldable pub to_value_type : FeastType → Result ValueType
unfolding value_type_name value_type_named
to_value_type (primitive p) = do n ← value_type_name p; value_type_named n
to_value_type (array (primitive p)) = do n ← value_type_name p; value_type_named (n <> "_LIST")
to_value_type (array (array b)) = err assertion_error

unfoldable pub value_types_to_feast_types : List (ValueType × FeastType)
value_types_to_feast_types =
    (ValueType.unknown, primitive PrimitiveFeastType.invalid)
    ∷ (ValueType.bytes, primitive PrimitiveFeastType.bytes)
    ∷ (ValueType.string, primitive PrimitiveFeastType.string)
    ∷ (ValueType.int32, primitive PrimitiveFeastType.int32)
    ∷ (ValueType.int64, primitive PrimitiveFeastType.int64)
    ∷ (ValueType.double, primitive PrimitiveFeastType.float64)
    ∷ (ValueType.float, primitive PrimitiveFeastType.float32)
    ∷ (ValueType.bool, primitive PrimitiveFeastType.bool)
    ∷ (ValueType.unix_timestamp, primitive PrimitiveFeastType.unix_timestamp)
    ∷ (ValueType.bytes_list, array (primitive PrimitiveFeastType.bytes))
    ∷ (ValueType.string_list, array (primitive PrimitiveFeastType.string))
    ∷ (ValueType.int32_list, array (primitive PrimitiveFeastType.int32))
    ∷ (ValueType.int64_list, array (primitive PrimitiveFeastType.int64))
    ∷ (ValueType.double_list, array (primitive PrimitiveFeastType.float64))
    ∷ (ValueType.float_list, array (primitive PrimitiveFeastType.float32))
    ∷ (ValueType.bool_list, array (primitive PrimitiveFeastType.bool))
    ∷ (ValueType.unix_timestamp_list, array (primitive PrimitiveFeastType.unix_timestamp))
    ∷ []

unfoldable pub from_value_type : ValueType → Result FeastType
unfolding value_types_to_feast_types lookup value_type_eq
from_value_type t = elim (lookup t value_types_to_feast_types) [
  | none ↦ err (value_error "Could not convert value type to FeastType.")
  | some f ↦ ok f
]

-- Equality of Feast types: primitives by value, arrays by the value type that they stand for.
FeastType-discrete : Discrete FeastType
unfolding PrimitiveFeastType-discrete
FeastType-discrete = hlevel

instance unfoldable pub feast_type_eq : Eq FeastType
unfolding FeastType-discrete
feast_type_eq = record { dec = FeastType-discrete }
