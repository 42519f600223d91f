-- ===== src/KeyEncoding/RoundTrip.antt =====
-- What the bytes of a value of sdk/python/feast/infra/key_encoding_utils.py say of the value.
use feast.Base.{
  ◌≡◌, refl, ap, sym, ◌∙◌, subst, ℕ, Bool, true, false, List, Option, none, some, ok, if◌then◌else◌,
  ok-injective, Result-cases, inl, inr, ◌==◌, nat_eq,
}
use feast.Base.Bytes.{ℤ, pack_signed, unpack_signed, unpack_signed-pack_signed}
use feast.KeyEncoding.{
  Value, string_val, bytes_val, int32_val, int64_val, other_val, unset, is_old, serialize_val,
  typed, type_bytes, type_int32, type_int64,
}

-- A reader of the bytes and the type number of a value that is no text.
unfoldable pub read_val : ℤ → List ℕ × ℕ → Option Value
unfolding nat_eq
read_val version (bs, t) =
    if t == type_bytes
    then some (bytes_val bs)
    else if t == type_int32
    then some (int32_val (unpack_signed 4 bs))
    else if t == type_int64
    then some (int64_val (unpack_signed (if is_old version then 4 else 8) bs))
    else none

abbrev pub is_text : Value → Bool
is_text (string_val s) = true
is_text v = false

typed-ok :
    (width t : ℕ) (v : ℤ) (p : List ℕ × ℕ)
    → typed t (pack_signed width v) ≡ ok p
    → (p.1 ≡ t) × (unpack_signed width p.0 ≡ v)
typed-ok width t v p h = elim (Result-cases (pack_signed width v)) [
  | inl (e, raised) ↦ cc
  | inr (bs, packed) ↦
      let same : (bs, t) ≡ p = ok-injective _ _ (sym (rw packed) ∙ h) in
      (
        sym (ap (λ (q : List ℕ × ℕ). q.1) same),
        subst (λ (q : List ℕ × ℕ). unpack_signed width q.0 ≡ v) same
            (unpack_signed-pack_signed width v bs packed),
      )
]

-- The bytes and the type number that a value other than a text is serialized as, with any version of the
-- serialization, determine it: reading them as bytes or in two's complement, at the version's width,
-- gives the value back.
pub read_val-serialize_val :
    (v : Value) (version : ℤ) (p : List ℕ × ℕ)
    → is_text v ≡ false
    → serialize_val v version ≡ ok p
    → read_val version p ≡ some v
unfolding serialize_val read_val nat_eq
read_val-serialize_val (string_val s) version p h made = cc
read_val-serialize_val (bytes_val bs) version p h made =
    subst (λ q. read_val version q ≡ some (bytes_val bs)) (ok-injective _ _ made) refl
read_val-serialize_val (int32_val v) version p h made =
    let (t, read) = typed-ok 4 type_int32 v p made in rw t (ap (λ x. some (int32_val x)) read)
read_val-serialize_val (int64_val v) version p h made =
    let (t, read) = typed-ok (if is_old version then 4 else 8) type_int64 v p made in
    rw t (ap (λ x. some (int64_val x)) read)
read_val-serialize_val (other_val a c) version p h made = cc
read_val-serialize_val unset version p h made = cc
