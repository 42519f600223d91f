-- ===== src/Base/Sort.antt =====
-- Python's `sorted`: a stable sort by a key of text, and equality of lists item by item.
use Prim.Native.Nat.{Ordering}
use Prim.Native.String.{compare}
use feast.Base.{String, Bool, true, false, ◌&&◌, List, [], ◌∷◌, if◌then◌else◌}

-- `s <= t` on texts, by their characters.
abbrev pub str_le : String → String → Bool
str_le s t = elim (compare s t) [ Ordering.gt ↦ false | _ ↦ true ]

module _ {ℓ} {A : Type ℓ} (key : A → String) where
  unfoldable pub insert_sorted : A → List A → List A
  insert_sorted x [] = x ∷ []
  insert_sorted x (y ∷ ys) = if str_le (key x) (key y) then x ∷ y ∷ ys else y ∷ insert_sorted x ys

  -- `sorted(xs)`, with `x < y` the order of the keys.
  unfoldable pub sorted : List A → List A
  unfolding insert_sorted
  sorted [] = []
  sorted (x ∷ xs) = insert_sorted x (sorted xs)

module _ {ℓ} {A : Type ℓ} (same : A → A → Bool) where
  -- `xs == ys`
  unfoldable pub list_eq : List A → List A → Bool
  list_eq [] [] = true
  list_eq (x ∷ xs) (y ∷ ys) = same x y && list_eq xs ys
  list_eq _ _ = false
