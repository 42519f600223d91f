-- ===== src/Base/Lists.antt =====
-- Python's lists: searching, deleting while enumerating, filtering, and predicates on all items.
use mathlib.Core.Path.{◌≡◌, refl}
use mathlib.Core.Bool.{Bool, true, false}
use mathlib.Core.Option.{Option, none, some}
use mathlib.Core.List.{List, [], ◌∷◌, ◌++◌, map}
use Prim.Native.Nat.{ℕ, zero, suc, ◌+◌}
use native.Mathlib.Omega.{arith}
use feast.Base.Equality.{if◌then◌else◌}

module _ {ℓ} {A : Type ℓ} where
  abbrev pub length : List A → ℕ
  length [] = 0
  length (x ∷ xs) = suc (length xs)

  -- `for x in xs: if p(x): return x`
  unfoldable pub find_first : (A → Bool) → List A → Option A
  find_first p [] = none
  find_first p (x ∷ xs) = if p x then some x else find_first p xs

  -- `for idx, x in enumerate(xs): if p(x): del xs[idx]; break`
  unfoldable pub delete_first : (A → Bool) → List A → List A
  delete_first p [] = []
  delete_first p (x ∷ xs) = if p x then xs else x ∷ delete_first p xs

  -- `for idx, x in enumerate(xs): if p(x): del xs[idx]`: the loop goes on, and the item that moves
  -- into the hole is not looked at.
  unfoldable pub delete_each : (A → Bool) → List A → List A
  delete_each p [] = []
  delete_each p (x ∷ []) = if p x then [] else x ∷ []
  delete_each p (x ∷ y ∷ ys) =
      let rest = delete_each p (y ∷ ys) in
      let skip = y ∷ delete_each p ys in if p x then skip else x ∷ rest

  -- `[x for x in xs if p(x)]`
  unfoldable pub filter : (A → Bool) → List A → List A
  filter p [] = []
  filter p (x ∷ xs) = let rest = filter p xs in if p x then x ∷ rest else rest

  -- `any(p(x) for x in xs)`
  unfoldable pub any : (A → Bool) → List A → Bool
  any p [] = false
  any p (x ∷ xs) = if p x then true else any p xs

  pub find_first-append_none :
      (p : A → Bool) (xs : List A) (y : A)
      → find_first p xs ≡ none
      → find_first p (xs ++ y ∷ []) ≡ (if p y then some y else none)
  unfolding find_first
  find_first-append_none p [] y h = refl
  find_first-append_none p (x ∷ xs) y h = ground (arith, find_first-append_none p xs y)

  pub find_first_sound :
      (p : A → Bool) (xs : List A) (x : A) → find_first p xs ≡ some x → p x ≡ true
  unfolding find_first
  find_first_sound p [] x h = ground arith
  find_first_sound p (y ∷ ys) x h = ground (arith, find_first_sound p ys x)

  pub delete_first-none :
      (p : A → Bool) (xs : List A) → find_first p xs ≡ none → delete_first p xs ≡ xs
  unfolding find_first delete_first
  delete_first-none p [] h = refl
  delete_first-none p (x ∷ xs) h = ground (arith, delete_first-none p xs)

  pub delete_each-none :
      (p : A → Bool) (xs : List A) → find_first p xs ≡ none → delete_each p xs ≡ xs
  unfolding find_first delete_each
  delete_each-none p [] h = refl
  delete_each-none p (x ∷ []) h = ground arith
  delete_each-none p (x ∷ y ∷ ys) h = ground (arith, delete_each-none p (y ∷ ys))

  -- What every item satisfies.
  abbrev pub All {κ} : (A → Type κ) → List A → Type κ
  All P [] = Unit
  All P (x ∷ xs) = P x × All P xs

module _ {ℓ} {A : Type ℓ} where
  abbrev pub get_elem? : List A → ℕ → Option A
  get_elem? [] i = none
  get_elem? (x ∷ xs) zero = some x
  get_elem? (x ∷ xs) (suc i) = get_elem? xs i

  pub length-append : (xs ys : List A) → length (xs ++ ys) ≡ length xs + length ys
  length-append [] ys = omega arith
  length-append (x ∷ xs) ys = omega (arith, length-append xs ys)

-- A list that has at each place what `g` gives of the other's item there.
pub eq-map {ℓ κ} :
    {A : Type ℓ} {B : Type κ} (g : A → B) (ys : List B) (xs : List A)
    → length ys ≡ length xs
    → ((i : ℕ) (a : A) → get_elem? xs i ≡ some a → get_elem? ys i ≡ some (g a))
    → ys ≡ map g xs
eq-map g [] [] size h = refl
eq-map g [] (x ∷ xs) size h = absurd (omega (arith, size))
eq-map g (y ∷ ys) [] size h = absurd (omega (arith, size))
eq-map g (y ∷ ys) (x ∷ xs) size h =
    ground (arith, h 0 x, eq-map g ys xs (omega (arith, size)) (λ i. h (suc i)))

pub length-map {ℓ κ} :
    {A : Type ℓ} {B : Type κ} (g : A → B) (xs : List A) → length (map g xs) ≡ length xs
length-map g [] = refl
length-map g (x ∷ xs) = omega (arith, length-map g xs)
