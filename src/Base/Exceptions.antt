-- ===== src/Base/Exceptions.antt =====
-- Python's exceptions as values: what a call returns, or the exception that it raises.
use Prim.Native.String.{String}
use mathlib.Core.Path.{◌≡◌, refl, ap}
use mathlib.Core.Logic.{◌⊎◌, inl, inr}
use native.Mathlib.Omega.{arith}
use mathlib.Core.Bool.{Bool, true, false}
use mathlib.Core.List.{List, [], ◌∷◌, map}

-- The exceptions that the modelled code raises, with the arguments that callers read.
pub data Error : Type 0 where
  file_not_found : Error
  assertion_error : Error
  attribute_error : Error
  value_error : String → Error
  key_error : String → Error
  struct_error : Error
  type_error : Error
  index_error : Error
  feast_invalid_infra_object_type : Error
  entity_not_found : String → String → Error
  feature_view_not_found : String → String → Error
  feature_service_not_found : String → String → Error
  saved_dataset_not_found : String → String → Error
  validation_reference_not_found : String → String → Error
  data_source_not_found : String → Error
  data_source_object_not_found : String → String → Error
  conflicting_feature_view_names : String → Error
  feature_view_missing_during_inference : String → String → Error
  feature_view_not_found_anywhere : String → Error
  feature_name_collision : List String → Bool → Error
  data_source_repeat_names : String → Error
  request_data_not_found : List String → Error

pub data Result {ℓ} (A : Type ℓ) : Type ℓ where
  ok : A → Result A
  err : Error → Result A

module _ {ℓ κ} {A : Type ℓ} {B : Type κ} where
  infixl 5 ◌>>=◌
  abbrev pub ◌>>=◌ : Result A → (A → Result B) → Result B
  ok a >>= f = f a
  err e >>= f = err e

  -- A list comprehension whose body may raise.
  abbrev pub traverse : (A → Result B) → List A → Result (List B)
  traverse f [] = ok []
  traverse f (x ∷ xs) = elim (f x) [
    | err e ↦ err e
    | ok y ↦ elim (traverse f xs) [ err e ↦ err e | ok ys ↦ ok (y ∷ ys) ]
  ]

-- `if not c: raise e`
abbrev pub require : Bool → Error → Result (Unit {0})
require true e = ok tt
require false e = err e

infixl 5 ◌>>◌
abbrev pub ◌>>◌ {κ} : {B : Type κ} → Result (Unit {0}) → Result B → Result B
m >> k = m >>= λ _. k

-- To split on what a call did.
pub Result-cases {ℓ} :
    {A : Type ℓ} (r : Result A) → ((e : Error) × (r ≡ err e)) ⊎ ((a : A) × (r ≡ ok a))
Result-cases (ok a) = inr (a, refl)
Result-cases (err e) = inl (e, refl)

-- Two calls of which the second undoes the first, item by item.
pub traverse-traverse {ℓ κ} :
    {A : Type ℓ} {B : Type κ} (f : A → Result B) (g : B → Result A)
    → ((a : A) (b : B) → f a ≡ ok b → g b ≡ ok a)
    → (xs : List A) (bs : List B) → traverse f xs ≡ ok bs
    → traverse g bs ≡ ok xs
traverse-traverse f g undo [] bs h = ground arith
traverse-traverse f g undo (a ∷ xs) bs h = elim (Result-cases (f a)) [
  | inl (e, p) ↦ ground arith
  | inr (b, p) ↦ elim (Result-cases (traverse f xs)) [
    | inl (e, q) ↦ ground arith
    | inr (bs', q) ↦ ground (arith, undo a b p, traverse-traverse f g undo xs bs' q)
  ]
]

-- `c and r`, where `r` may raise and is evaluated only if `c` holds.
infixr 35 ◌and_then◌
abbrev pub ◌and_then◌ : Bool → Result Bool → Result Bool
true and_then r = r
false and_then r = ok false

-- The same, where the second call gives back an item changed by `k`.
pub traverse-traverse-map {ℓ κ} :
    {A : Type ℓ} {B : Type κ} (f : A → Result B) (g : B → Result A) (k : A → A)
    → ((a : A) (b : B) → f a ≡ ok b → g b ≡ ok (k a))
    → (xs : List A) (bs : List B) → traverse f xs ≡ ok bs
    → traverse g bs ≡ ok (map k xs)
traverse-traverse-map f g k undo [] bs h = ground arith
traverse-traverse-map f g k undo (a ∷ xs) bs h = elim (Result-cases (f a)) [
  | inl (e, p) ↦ ground arith
  | inr (b, p) ↦ elim (Result-cases (traverse f xs)) [
    | inl (e, q) ↦ ground arith
    | inr (bs', q) ↦ ground (arith, undo a b p, traverse-traverse-map f g k undo xs bs' q)
  ]
]

abbrev pub ok_or {ℓ} : {A : Type ℓ} → A → Result A → A
ok_or d (ok a) = a
ok_or d (err e) = d

pub ok-injective {ℓ} : {A : Type ℓ} (a b : A) → ok a ≡ ok b → a ≡ b
ok-injective a b h = ap (ok_or a) h

-- A chain that returns: its first call returned, and so did the rest on what that gave.
module _ {ℓ κ} {First : Type ℓ} {Last : Type κ} {last : Last} where
  pub >>=-eq-ok :
      (call : Result First) (rest : First → Result Last)
      → call >>= rest ≡ ok last
      → (first : First) × (call ≡ ok first) × (rest first ≡ ok last)
  >>=-eq-ok (err e) rest returned = cc
  >>=-eq-ok (ok first) rest returned = (first, refl, returned)

pub require-eq-ok : (b : Bool) (e : Error) (u : Unit {0}) → require b e ≡ ok u → b ≡ true
require-eq-ok true e u h = refl
require-eq-ok false e u h = cc

abbrev error_or {ℓ} : {A : Type ℓ} → Error → Result A → Error
error_or d (ok a) = d
error_or d (err e) = e

pub err-injective {ℓ} : (A : Type ℓ) (e f : Error) → ◌≡◌ {A = Result A} (err e) (err f) → e ≡ f
err-injective A e f h = ap (error_or e) h

module _ {ℓ κ} {A : Type ℓ} {B : Type κ} where
  -- Binds whose continuations agree, and binds in a row.
  pub >>=-ap : (m : Result A) (f g : A → Result B) → ((a : A) → f a ≡ g a) → (m >>= f) ≡ (m >>= g)
  >>=-ap (ok a) f g h = h a
  >>=-ap (err e) f g h = refl

  pub >>=-assoc {ι} :
      {C : Type ι} (m : Result A) (f : A → Result B) (g : B → Result C)
      → ((m >>= f) >>= g) ≡ (m >>= λ a. f a >>= g)
  >>=-assoc (ok a) f g = refl
  >>=-assoc (err e) f g = refl
