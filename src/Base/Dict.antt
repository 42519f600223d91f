-- ===== src/Base/Dict.antt =====
-- Python's dicts, in insertion order.
use feast.Base.{
  ◌≡◌, refl, Bool, true, false, ◌&&◌, Option, none, some, List, [], ◌∷◌, arith, Eq, ◌==◌,
  if◌then◌else◌,
}

abbrev pub Dict {ℓ κ} : Type ℓ → Type κ → Type (ℓ ⊔ κ)
Dict K V = List (K × V)

module _ {ℓ κ} {K : Type ℓ} {V : Type κ} ⦃e : Eq K⦄ where
  unfoldable pub lookup : K → Dict K V → Option V
  lookup k [] = none
  lookup k ((j, v) ∷ d) = if j == k then some v else lookup k d

  -- `d[k] = v`
  unfoldable pub insert : K → V → Dict K V → Dict K V
  insert k v [] = (k, v) ∷ []
  insert k v ((j, w) ∷ d) = if j == k then (k, v) ∷ d else (j, w) ∷ insert k v d

  pub lookup-insert :
      (j k : K) (v : V) (d : Dict K V)
      → lookup j (insert k v d) ≡ (if k == j then some v else lookup j d)
  unfolding insert lookup
  lookup-insert j k v [] = refl
  lookup-insert j k v (_ ∷ d) = ground (arith, lookup-insert j k v d)

-- `d1 == d2`: as many entries, and each entry of the one is in the other.
module _ {ℓ κ} {K : Type ℓ} {V : Type κ} ⦃e : Eq K⦄ ⦃f : Eq V⦄ where
  unfoldable pub contains_all : Dict K V → Dict K V → Bool
  unfolding lookup
  contains_all [] d = true
  contains_all ((k, v) ∷ c) d =
      elim (lookup k d) [ none ↦ false | some w ↦ w == v ] && contains_all c d

  unfoldable pub dict_eq : Dict K V → Dict K V → Bool
  unfolding contains_all
  dict_eq c d = contains_all c d && contains_all d c
