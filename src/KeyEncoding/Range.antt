-- ===== src/KeyEncoding/Range.antt =====
-- Which integers sdk/python/feast/infra/key_encoding_utils.py serializes, by the version of the
-- serialization.
use feast.Base.{
  ◌≡◌, refl, ap, ℕ, ◌<◌, ◌/◌, ◌^◌, ◌-◌, suc, zero, ◌⊎◌, inl, inr, true, Bool-cases, List, length,
  ok, err, if◌then◌else◌, arith, struct_error, ltb,
}
use feast.Base.Bytes.{ℤ, pos, negsuc, little_endian, pack_signed}
use feast.KeyEncoding.{int64_val, is_old, serialize_val, type_int64}

-- The integers that have two's complement at so many bytes.
abbrev pub Fits : ℕ → ℤ → Type 0
Fits width (pos n) = n < 256 ^ width / 2
Fits width (negsuc n) = n < 256 ^ width / 2

length-little_endian : (width n : ℕ) → length (little_endian width n) ≡ width
unfolding little_endian
length-little_endian zero n = refl
length-little_endian (suc width) n = ap suc (length-little_endian width (n / 256))

pack_signed-cases :
    (width : ℕ) (v : ℤ)
    → (Fits width v × ((bs : List ℕ) × (pack_signed width v ≡ ok bs) × (length bs ≡ width)))
      ⊎ ((¬ Fits width v) × (pack_signed width v ≡ err struct_error))
unfolding pack_signed
pack_signed-cases width (pos n) = elim (Bool-cases (ltb n (256 ^ width / 2))) [
  | inl small ↦ inl (ground arith, (little_endian width n, rw small, length-little_endian width n))
  | inr large ↦ inr (ground arith, rw large)
]
pack_signed-cases width (negsuc n) = elim (Bool-cases (ltb n (256 ^ width / 2))) [
  | inl small ↦ inl (
    ground arith,
    (
      little_endian width (256 ^ width - 1 - n),
      rw small,
      length-little_endian width (256 ^ width - 1 - n),
    ),
  )
  | inr large ↦ inr (ground arith, rw large)
]

-- An integer of an `int64` field is serialized in as many bytes as the version says, four for the
-- versions 0 and 1 and eight for others, unless the version is one of those two and the integer does not
-- fit in four bytes; then `struct.error` is raised.
pub serialize_val-int64 :
    (v : ℤ) (version : ℤ)
    → Fits 8 v
    → ((bs : List ℕ) × (serialize_val (int64_val v) version ≡ ok (bs, type_int64))
        × (length bs ≡ (if is_old version then 4 else 8))
        × Fits (length bs) v)
      ⊎ ((is_old version ≡ true)
          × (¬ Fits 4 v)
          × (serialize_val (int64_val v) version ≡ err struct_error))
unfolding serialize_val
serialize_val-int64 v version h = elim (Bool-cases (is_old version)) [
  | inl old ↦ elim (pack_signed-cases 4 v) [
    | inl (fits, (bs, packed, size)) ↦ inl (bs, rw (old, packed), rw old size, rw size fits)
    | inr (unfit, raised) ↦ inr (old, unfit, rw (old, raised))
  ]
  | inr new ↦ elim (pack_signed-cases 8 v) [
    | inl (fits, (bs, packed, size)) ↦ inl (bs, rw (new, packed), rw new size, rw size fits)
    | inr (unfit, raised) ↦ elim (unfit h) [ ]
  ]
]
