-- ===== src/FeatureStore/Entities/Writes.antt =====
-- The writes of `apply_list_mapping` (sdk/python/feast/feature_store.py), as pairs of an index and an item.
use feast.Base.{
  ℕ, zero, suc, ◌<◌, ◌≡◌, refl, ap, ◌∙◌, Option, some, List, [], ◌∷◌, ◌++◌, map, Result, ok, ◌>>=◌,
  >>=-ap, >>=-assoc, length, get_elem?, All, ◌⊎◌, inl, inr, arith,
}
use feast.FeatureStore.Entities.{set_index, write_each, map_lists}

module _ {A : Type 0} where
  pub write_pairs : List (ℕ × A) → List (Option A) → Result (List (Option A))
  write_pairs [] out = ok out
  write_pairs ((i, a) ∷ ws) out = set_index out i a >>= λ out'. write_pairs ws out'

  -- The writes of an item and its indexes.
  abbrev pub pairs : A → List ℕ → List (ℕ × A)
  pairs a is = map (λ i. (i, a)) is

  -- Some pair has the index.
  abbrev pub Written : ℕ → List (ℕ × A) → Type 0
  Written i [] = ⊥
  Written i ((j, a) ∷ ws) = (i ≡ j) ⊎ Written i ws

  write_pairs-append :
      (a : A) (is : List ℕ) (ws : List (ℕ × A)) (out : List (Option A))
      → (write_each a is out >>= λ out'. write_pairs ws out') ≡ write_pairs (pairs a is ++ ws) out
  unfolding write_each write_pairs
  write_pairs-append a [] ws out = refl
  write_pairs-append a (i ∷ is) ws out =
      >>=-assoc (set_index out i a) (λ o. write_each a is o) (λ o. write_pairs ws o)
      ∙ >>=-ap (set_index out i a) _ _ λ o. write_pairs-append a is ws o

  -- The pairs of groups of indexes, each group with its item.
  abbrev pub group_pairs : List (A × List ℕ) → List (ℕ × A)
  group_pairs [] = []
  group_pairs ((a, is) ∷ gs) = pairs a is ++ group_pairs gs

  pub map_lists-write_pairs :
      (gs : List (A × List ℕ)) (out : List (Option A))
      → map_lists (map (λ (g : A × List ℕ). g.0) gs) (map (λ (g : A × List ℕ). g.1) gs) out
        ≡ write_pairs (group_pairs gs) out
  unfolding map_lists write_pairs
  map_lists-write_pairs [] out = refl
  map_lists-write_pairs ((a, is) ∷ gs) out =
      >>=-ap (write_each a is out) _ _ (λ o. map_lists-write_pairs gs o)
      ∙ write_pairs-append a is (group_pairs gs) out

  -- A write inside the list returns, and changes the one place.
  set_index-ok :
      (out : List (Option A)) (i : ℕ) (a : A)
      → i < length out
      → (out' : List (Option A)) × (set_index out i a ≡ ok out')
        × (length out' ≡ length out)
        × (get_elem? out' i ≡ some (some a))
        × ((j : ℕ) → (j ≡ i) ⊎ (get_elem? out' j ≡ get_elem? out j))
  unfolding set_index
  set_index-ok [] i a h = absurd (omega arith)
  set_index-ok (o ∷ os) zero a h = (some a ∷ os, refl, refl, refl, other)
    where
      other : (j : ℕ) → (j ≡ 0) ⊎ (get_elem? (some a ∷ os) j ≡ get_elem? (o ∷ os) j)
      other zero = inl refl
      other (suc j) = inr refl
  set_index-ok (o ∷ os) (suc i) a h =
      let (os', made, size, here, others) = set_index-ok os i a (omega arith) in
      (o ∷ os', rw made, omega (arith, size), here, λ j. shifted os' others j)
    where
      shifted :
          (os' : List (Option A))
          → ((j : ℕ) → (j ≡ i) ⊎ (get_elem? os' j ≡ get_elem? os j))
          → (j : ℕ) → (j ≡ suc i) ⊎ (get_elem? (o ∷ os') j ≡ get_elem? (o ∷ os) j)
      shifted os' others zero = inr refl
      shifted os' others (suc j) = elim (others j) [ inl e ↦ inl (ap suc e) | inr e ↦ inr e ]

  -- The items that are written are those of `vs` at their indexes.
  abbrev pub Agrees : List A → ℕ × A → Type 0
  Agrees vs (i, a) = get_elem? vs i ≡ some a

  pub get_elem?-lt : (vs : List A) (i : ℕ) (a : A) → get_elem? vs i ≡ some a → i < length vs
  get_elem?-lt [] i a h = cc
  get_elem?-lt (v ∷ vs) zero a h = omega arith
  get_elem?-lt (v ∷ vs) (suc i) a h = omega (arith, get_elem?-lt vs i a h)

  -- Such writes return; each place that is written, or that held the item of `vs` before, holds it then.
  pub write_pairs-ok :
      (vs : List A) (ws : List (ℕ × A)) (out : List (Option A))
      → length out ≡ length vs
      → All (Agrees vs) ws
      → (out' : List (Option A)) × (write_pairs ws out ≡ ok out')
        × (length out' ≡ length vs)
        × ((i : ℕ) (a : A)
            → get_elem? vs i ≡ some a
            → Written i ws ⊎ (get_elem? out i ≡ some (some a))
            → get_elem? out' i ≡ some (some a))
  unfolding write_pairs
  write_pairs-ok vs [] out size agrees = (out, refl, size, λ i a h w. held i a w)
    where
      held :
          (i : ℕ) (a : A) → ⊥ ⊎ (get_elem? out i ≡ some (some a)) → get_elem? out i ≡ some (some a)
      held i a (inl w) = elim w [ ]
      held i a (inr e) = e
  write_pairs-ok vs ((j, b) ∷ ws) out size (agree, agrees) =
      let (mid, made, same_size, here, others) =
        set_index-ok out j b (omega (arith, size, get_elem?-lt vs j b agree)) in
      let (out', rest, size', kept) = write_pairs-ok vs ws mid (same_size ∙ size) agrees in
      (out', rw made rest, size', λ i a h w. kept i a h (after mid here others i a h w))
    where
      after :
          (mid : List (Option A))
          → get_elem? mid j ≡ some (some b)
          → ((i : ℕ) → (i ≡ j) ⊎ (get_elem? mid i ≡ get_elem? out i))
          → (i : ℕ) (a : A) → get_elem? vs i ≡ some a
          → ((i ≡ j) ⊎ Written i ws) ⊎ (get_elem? out i ≡ some (some a))
          → Written i ws ⊎ (get_elem? mid i ≡ some (some a))
      after mid here others i a h (inl (inl e)) = inr (cc)
      after mid here others i a h (inl (inr w)) = inl w
      after mid here others i a h (inr held) = elim (others i) [
        | inl e ↦ inr (cc)
        | inr same ↦ inr (same ∙ held)
      ]
