-- ===== src/KeyEncoding.antt =====
-- The bytes of entity keys: sdk/python/feast/infra/key_encoding_utils.py.
pub mod RoundTrip
pub mod Range
mod Tests
use feast.Base.{
  ℕ, String, Bool, true, false, ◌&&◌, ◌||◌, not, List, [], ◌∷◌, ◌++◌, map, Result, ok, err, Error,
  ◌>>=◌, ◌==◌, string_eq, nat_eq, if◌then◌else◌, leb, length, any, value_error, type_error,
  traverse, Eq,
}
use feast.Base.Bytes.{ℤ, pos, negsuc, pack_unsigned, pack_signed}
use feast.Base.Utf8.{utf8}
use feast.Base.Sort.{sorted, list_eq}

-- The oneof `val` of the message `Value`. The kinds that cannot be part of a key are one constructor, with
-- their field's name and their content as a text; no field set is `unset`.
pub data Value : Type 0 where
  string_val : String → Value
  bytes_val : List ℕ → Value
  int32_val : ℤ → Value
  int64_val : ℤ → Value
  other_val : String → String → Value
  unset : Value

unfoldable pub int_eq : ℤ → ℤ → Bool
int_eq (pos m) (pos n) = m == n
int_eq (negsuc m) (negsuc n) = m == n
int_eq a b = false

unfoldable pub bytes_eq : List ℕ → List ℕ → Bool
unfolding list_eq
bytes_eq = list_eq (λ m n. m == n)

-- `==` on messages
unfoldable pub value_eq : Value → Value → Bool
unfolding int_eq bytes_eq
value_eq (string_val s) (string_val t) = s == t
value_eq (bytes_val a) (bytes_val b) = bytes_eq a b
value_eq (int32_val a) (int32_val b) = int_eq a b
value_eq (int64_val a) (int64_val b) = int_eq a b
value_eq (other_val a s) (other_val b t) = a == b && s == t
value_eq unset unset = true
value_eq v w = false

-- The message `EntityKey`.
pub record EntityKeyProto : Type 0 where
  pub join_keys : List String
  pub entity_values : List Value

-- `0 <= entity_key_serialization_version <= 1`
unfoldable pub is_old : ℤ → Bool
is_old (pos n) = leb n 1
is_old (negsuc n) = false

-- The numbers of `ValueType` in Value.proto.
abbrev pub type_bytes : ℕ
type_bytes = 1

abbrev pub type_string : ℕ
type_string = 2

abbrev pub type_int32 : ℕ
type_int32 = 3

abbrev pub type_int64 : ℕ
type_int64 = 4

-- Bytes, with the number of the value's type.
abbrev pub typed : ℕ → Result (List ℕ) → Result (List ℕ × ℕ)
typed value_type packed = packed >>= λ bs. ok (bs, value_type)

unfoldable pub serialize_val : Value → ℤ → Result (List ℕ × ℕ)
unfolding utf8 pack_signed is_old
serialize_val (string_val s) version = ok (utf8 s, type_string)
serialize_val (bytes_val bs) version = ok (bs, type_bytes)
serialize_val (int32_val v) version = typed type_int32 (pack_signed 4 v)
serialize_val (int64_val v) version =
    typed type_int64 (pack_signed (if is_old version then 4 else 8) v)
serialize_val v version = err (value_error "Value type not supported for Firestore")

-- `struct.pack("<I", ValueType.STRING)` and the key's text
unfoldable pub serialize_key : String → Result (List ℕ)
unfolding pack_unsigned utf8
serialize_key k = pack_unsigned 4 type_string >>= λ tag. ok (tag ++ utf8 k)

-- `b"".join(...)` of what a loop appends.
abbrev pub join : List (List ℕ) → List ℕ
join [] = []
join (bs ∷ rest) = bs ++ join rest

unfoldable pub serialize_entity_key_prefix : List String → Result (List ℕ)
unfolding serialize_key sorted
serialize_entity_key_prefix entity_keys =
    traverse serialize_key (sorted (λ k. k) entity_keys) >>= λ parts. ok (join parts)

-- The turn of the second loop: the type, the number of bytes, the bytes.
unfoldable pub serialize_sized : ℤ → Value → Result (List ℕ)
unfolding serialize_val pack_unsigned
serialize_sized version v = serialize_val v version >>= λ part. pack_unsigned 4 part.1 >>= λ tag.
    pack_unsigned 4 (length part.0) >>= λ size. ok (tag ++ size ++ part.0)

-- `zip(entity_key.join_keys, entity_key.entity_values)`
unfoldable pub zip : List String → List Value → List (String × Value)
zip (k ∷ ks) (v ∷ vs) = (k, v) ∷ zip ks vs
zip ks vs = []

-- Whether two pairs have one key and different values. Sorting compares such values, which have no order.
unfoldable pub has_tie : List (String × Value) → Bool
unfolding any value_eq
has_tie [] = false
has_tie (p ∷ ps) =
    any (λ (q : String × Value). p.0 == q.0 && not (value_eq p.1 q.1)) ps || has_tie ps

unfoldable pub sort_pairs : List (String × Value) → Result (List (String × Value))
unfolding has_tie sorted
sort_pairs ps = if has_tie ps then err type_error else ok (sorted (λ p. p.0) ps)

unfoldable pub serialize_pairs : List (String × Value) → ℤ → Result (List ℕ)
unfolding serialize_key serialize_sized
serialize_pairs [] version = err (value_error "not enough values to unpack (expected 2, got 0)")
serialize_pairs (p ∷ ps) version =
    traverse serialize_key (map (λ (q : String × Value). q.0) (p ∷ ps)) >>= λ keys.
    traverse (serialize_sized version) (map (λ (q : String × Value). q.1) (p ∷ ps)) >>= λ values.
    ok (join (keys ++ values))

unfoldable pub serialize_entity_key : EntityKeyProto → ℤ → Result (List ℕ)
unfolding sort_pairs serialize_pairs zip
serialize_entity_key entity_key version =
    sort_pairs (zip entity_key.join_keys entity_key.entity_values) >>= λ ps.
    serialize_pairs ps version
