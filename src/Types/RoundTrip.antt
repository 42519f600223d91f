-- ===== src/Types/RoundTrip.antt =====
-- The conversions between Feast types and value types undo one another.
use feast.Base.{◌≡◌, refl, ◌≢◌, ok, arith}
use feast.Types.{
  ValueType, PrimitiveFeastType, FeastType, primitive, array, to_value_type, from_value_type, value,
  value_type_of,
}

-- `ValueType(t.value)` is `t`, for every member `t` of the enum.
pub value_type_of-value : (t : ValueType) → value_type_of (value t) ≡ ok t
unfolding value_type_of value
value_type_of-value ValueType.unknown = refl
value_type_of-value _ = refl

-- Every value type but NULL has a Feast type, and that one converts back to it.
pub to_value_type-from_value_type :
    (t : ValueType)
    → t ≢ ValueType.null
    → (f : FeastType) × (from_value_type t ≡ ok f) × (to_value_type f ≡ ok t)
unfolding from_value_type to_value_type
to_value_type-from_value_type ValueType.null h = absurd (h refl)
to_value_type-from_value_type ValueType.unknown h = (_, refl, refl)
to_value_type-from_value_type _ h = (_, refl, refl)

-- A Feast type that converts to a value type is given back by `from_value_type`.
pub from_value_type-to_value_type :
    (f : FeastType) (t : ValueType) → to_value_type f ≡ ok t → from_value_type t ≡ ok f
unfolding from_value_type to_value_type
from_value_type-to_value_type (primitive PrimitiveFeastType.invalid) t h = ground arith
from_value_type-to_value_type (primitive _) t h = ground arith
from_value_type-to_value_type (array (primitive PrimitiveFeastType.invalid)) t h = cc
from_value_type-to_value_type (array (primitive _)) t h = ground arith
from_value_type-to_value_type (array (array b)) t h = cc
