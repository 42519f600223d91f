-- ===== src/KeyEncoding/Tests.antt =====
-- Runs of the serialization of entity keys, and the theorems on it at these values.
use feast.Base.{
  ◌≡◌, refl, ℕ, ◌⊎◌, true, List, [], ◌∷◌, length, some, ok, err, if◌then◌else◌, arith, struct_error,
  string_eq,
}
use feast.Base.Bytes.{pos, negsuc}
use feast.KeyEncoding.{int64_val, is_old, serialize_val, type_int64, serialize_entity_key}
use feast.KeyEncoding.RoundTrip.{read_val, read_val-serialize_val}
use feast.KeyEncoding.Range.{Fits, serialize_val-int64}

-- -2 in eight bytes
read_val-serialize_val_example :
    read_val (pos 2) (254 ∷ 255 ∷ 255 ∷ 255 ∷ 255 ∷ 255 ∷ 255 ∷ 255 ∷ [], 4)
    ≡ some (int64_val (negsuc 1))
unfolding serialize_val
read_val-serialize_val_example =
    read_val-serialize_val (int64_val (negsuc 1)) (pos 2)
      (254 ∷ 255 ∷ 255 ∷ 255 ∷ 255 ∷ 255 ∷ 255 ∷ 255 ∷ [], 4) refl refl

serialize_val-int64_example :
    ((bs : List ℕ) × (serialize_val (int64_val (pos 3000000000)) (pos 1) ≡ ok (bs, type_int64))
      × (length bs ≡ (if is_old (pos 1) then 4 else 8))
      × Fits (length bs) (pos 3000000000))
    ⊎ ((is_old (pos 1) ≡ true)
        × (¬ Fits 4 (pos 3000000000))
        × (serialize_val (int64_val (pos 3000000000)) (pos 1) ≡ err struct_error))
serialize_val-int64_example = serialize_val-int64 (pos 3000000000) (pos 1) (omega arith)

-- Keys are sorted, and the values with them.
two_keys :
    serialize_entity_key
      (record {
        join_keys = "b" ∷ "a" ∷ [];
        entity_values = int64_val (pos 1) ∷ int64_val (negsuc 0) ∷ [];
      })
      (pos 1)
    ≡ ok (
        2 ∷ 0 ∷ 0 ∷ 0 ∷ 97 ∷ 2 ∷ 0 ∷ 0 ∷ 0 ∷ 98 ∷ 4 ∷ 0 ∷ 0 ∷ 0 ∷ 4 ∷ 0 ∷ 0 ∷ 0 ∷ 255 ∷ 255 ∷ 255
        ∷ 255 ∷ 4 ∷ 0 ∷ 0 ∷ 0 ∷ 4 ∷ 0 ∷ 0 ∷ 0 ∷ 1 ∷ 0 ∷ 0 ∷ 0 ∷ [])
unfolding serialize_entity_key string_eq
two_keys = refl
