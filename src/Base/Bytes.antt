-- ===== src/Base/Bytes.antt =====
-- Integers and bytes: Python's `struct.pack` in little-endian order, and its inverse. A byte is a number
-- below 256.
use Prim.Native.Nat.{ℕ, zero, suc, ◌+◌, ◌-◌, ◌*◌, ◌/◌, ◌%◌, ◌^◌, ◌<◌, ◌≤◌}
use mathlib.Core.Path.{◌≡◌, sym, subst, ap, ◌∙◌}
use mathlib.Core.Bool.{true, false}
use mathlib.Core.List.{List, [], ◌∷◌}
use mathlib.Core.Logic.{inl, inr}
use native.Mathlib.Omega.{arith}
use feast.Base.Equality.{if◌then◌else◌, ltb, Bool-cases}
use feast.Base.Exceptions.{Result, ok, err, struct_error, ok-injective}

-- An integer: `negsuc n` is -(n + 1).
pub data ℤ : Type 0 where
  pos : ℕ → ℤ
  negsuc : ℕ → ℤ

unfoldable pub little_endian : ℕ → ℕ → List ℕ
little_endian zero n = []
little_endian (suc k) n = n % 256 ∷ little_endian k (n / 256)

unfoldable pub from_little_endian : List ℕ → ℕ
from_little_endian [] = 0
from_little_endian (b ∷ bs) = b + 256 * from_little_endian bs

-- `struct.pack("<I", n)` at 4 bytes
unfoldable pub pack_unsigned : ℕ → ℕ → Result (List ℕ)
unfolding little_endian
pack_unsigned width n = if ltb n (256 ^ width) then ok (little_endian width n) else err struct_error

-- `struct.pack("<i", v)`, or `"<l"`, at 4 bytes, and `struct.pack("<q", v)` at 8
unfoldable pub pack_signed : ℕ → ℤ → Result (List ℕ)
unfolding little_endian
pack_signed width (pos n) =
    if ltb n (256 ^ width / 2) then ok (little_endian width n) else err struct_error
pack_signed width (negsuc n) =
    if ltb n (256 ^ width / 2)
    then ok (little_endian width (256 ^ width - 1 - n))
    else err struct_error

-- The integer that bytes in two's complement stand for.
unfoldable pub unpack_signed : ℕ → List ℕ → ℤ
unfolding from_little_endian
unpack_signed width bs =
    let n = from_little_endian bs in
    if ltb n (256 ^ width / 2) then pos n else negsuc (256 ^ width - 1 - n)

pub from_little_endian-little_endian :
    (width n : ℕ) → n < 256 ^ width → from_little_endian (little_endian width n) ≡ n
unfolding from_little_endian little_endian
from_little_endian-little_endian zero n h = omega arith
from_little_endian-little_endian (suc width) n h =
    ap (λ m. n % 256 + 256 * m) (from_little_endian-little_endian width (n / 256) (omega arith))
    ∙ omega arith

ltb-< : (a b : ℕ) → ltb a b ≡ true → a < b
ltb-< a b h = ground arith

<-ltb : (a b : ℕ) → a < b → ltb a b ≡ true
<-ltb a b h = ground arith

ltb_ge : (a b : ℕ) → b ≤ a → ltb a b ≡ false
ltb_ge a b h = ground arith

unpack_signed-pos :
    (width n : ℕ) → n < 256 ^ width / 2 → unpack_signed width (little_endian width n) ≡ pos n
unfolding unpack_signed
unpack_signed-pos width n h =
    rw (from_little_endian-little_endian width n (omega arith), <-ltb n (256 ^ width / 2) h)

unpack_signed-negsuc :
    (width n : ℕ)
    → n < 256 ^ width / 2
    → unpack_signed width (little_endian width (256 ^ width - 1 - n)) ≡ negsuc n
unfolding unpack_signed
unpack_signed-negsuc width n h =
    rw
      (
        from_little_endian-little_endian width (256 ^ width - 1 - n) (omega arith),
        ltb_ge (256 ^ width - 1 - n) (256 ^ width / 2) (omega arith),
      )
      (ap negsuc (omega arith))

-- What `pack_signed` packs is unpacked unchanged.
pub unpack_signed-pack_signed :
    (width : ℕ) (v : ℤ) (bs : List ℕ) → pack_signed width v ≡ ok bs → unpack_signed width bs ≡ v
unfolding pack_signed
unpack_signed-pack_signed width (pos n) bs h = elim (Bool-cases (ltb n (256 ^ width / 2))) [
  | inl small ↦
      subst (λ bs. unpack_signed width bs ≡ pos n) (ok-injective _ _ (sym (rw small) ∙ h))
        (unpack_signed-pos width n (ltb-< n _ small))
  | inr large ↦ ground arith
]
unpack_signed-pack_signed width (negsuc n) bs h = elim (Bool-cases (ltb n (256 ^ width / 2))) [
  | inl small ↦
      subst (λ bs. unpack_signed width bs ≡ negsuc n) (ok-injective _ _ (sym (rw small) ∙ h))
        (unpack_signed-negsuc width n (ltb-< n _ small))
  | inr large ↦ ground arith
]
