-- ===== src/FeatureStore/References/Held.antt =====
-- What the sets of `_group_feature_refs` of sdk/python/feast/feature_store.py hold, as its loop adds to them.
use feast.Base.{
  ◌≡◌, refl, sym, ap, ◌∙◌, arith, String, Bool, true, false, ◌||◌, Option, none, some, List, [],
  ◌∷◌, ◌++◌, any, ◌==◌, ==-refl, ==-eq, string_eq, if◌then◌else◌, Bool-cases, Option-cases, inl,
  inr,
}
use feast.Base.Dict.{Dict, lookup, insert, lookup-insert}
use feast.Field.{Field}
use feast.Projection.{FeatureViewProjection}
use feast.FeatureView.{contains}
use feast.FeatureStore.References.{add_element}
use feast.FeatureStore.References.Grouping.{add_to_set, Sets, add_names, add_dependencies}

-- `x in d[k]`
abbrev pub holds : Dict String (List String) → String → String → Bool
holds d k x = elim (lookup k d) [ none ↦ false | some xs ↦ contains xs x ]

contains-append :
    (xs : List String) (x y : String) → contains (xs ++ x ∷ []) y ≡ (contains xs y || x == y)
unfolding contains any
contains-append [] x y = ground arith
contains-append (z ∷ zs) x y = ground (arith, contains-append zs x y)

contains-add_element :
    (x : String) (xs : List String) (y : String)
    → contains xs y ≡ true
    → contains (add_element x xs) y ≡ true
unfolding add_element
contains-add_element x xs y there = ground (arith, contains-append xs x y, there)

contains-added : (x : String) (xs : List String) → contains (add_element x xs) x ≡ true
unfolding add_element
contains-added x xs = ground (arith, contains-append xs x x, ==-refl x)

holds-some :
    (d : Dict String (List String)) (k : String) (xs : List String) (x : String)
    → lookup k d ≡ some xs
    → holds d k x ≡ contains xs x
holds-some d k xs x there =
    ap (λ (o : Option (List String)). elim o [ none ↦ false | some ys ↦ contains ys x ]) there

holds-none :
    (d : Dict String (List String)) (k x : String) → lookup k d ≡ none → holds d k x ≡ false
holds-none d k x missing =
    ap (λ (o : Option (List String)). elim o [ none ↦ false | some ys ↦ contains ys x ]) missing

holds-insert :
    (k : String) (xs : List String) (d : Dict String (List String)) (j y : String)
    → holds (insert k xs d) j y ≡ (if k == j then contains xs y else holds d j y)
holds-insert k xs d j y = elim (Bool-cases (k == j)) [
  | inl same ↦
      holds-some (insert k xs d) j xs y (lookup-insert j k xs d ∙ at_key same) ∙ rw same refl
  | inr other ↦
      ap (λ (o : Option (List String)). elim o [ none ↦ false | some ys ↦ contains ys y ])
        (lookup-insert j k xs d ∙ elsewhere other)
      ∙ rw other refl
]
  where
    at_key : (k == j) ≡ true → (if k == j then some xs else lookup j d) ≡ some xs
    at_key same = rw same refl

    elsewhere : (k == j) ≡ false → (if k == j then some xs else lookup j d) ≡ lookup j d
    elsewhere other = rw other refl

only : (x : String) → contains (x ∷ []) x ≡ true
unfolding contains any
only x = ground (arith, ==-refl x)

-- What a set has after an element has been added to it.
pub add_to_set-cases :
    (k x : String) (d : Dict String (List String))
    → (xs : List String) × (add_to_set k x d ≡ insert k xs d)
      × (contains xs x ≡ true)
      × ((y : String) → holds d k y ≡ true → contains xs y ≡ true)
unfolding add_to_set
add_to_set-cases k x d = elim (Option-cases (lookup k d)) [
  | inl missing ↦ (
    x ∷ [],
    rw (add_to_set, missing) refl,
    only x,
    λ y held. ground (arith, holds-none d k y missing, held),
  )
  | inr (xs, there) ↦ (
    add_element x xs,
    rw (add_to_set, there) refl,
    contains-added x xs,
    λ y held. contains-add_element x xs y (sym (holds-some d k xs y there) ∙ held),
  )
]

pub holds-added :
    (k x : String) (d : Dict String (List String)) → holds (add_to_set k x d) k x ≡ true
holds-added k x d =
    let (xs, inserted, there, _) = add_to_set-cases k x d in
    ap (λ e. holds e k x) inserted
    ∙ holds-insert k xs d k x
    ∙ ap (λ b. if b then contains xs x else holds d k x) (==-refl k)
    ∙ there

pub holds-add_to_set :
    (k x : String) (d : Dict String (List String)) (j y : String)
    → holds d j y ≡ true
    → holds (add_to_set k x d) j y ≡ true
holds-add_to_set k x d j y held =
    let (xs, inserted, _, kept) = add_to_set-cases k x d in
    ap (λ e. holds e j y) inserted ∙ holds-insert k xs d j y ∙ elim (Bool-cases (k == j)) [
      | inl same ↦ rw same (kept y (ap (λ i. holds d i y) (==-eq k j same) ∙ held))
      | inr other ↦ rw other held
    ]

holds-add_names :
    (name : String) (fs : List Field) (d : Dict String (List String)) (j y : String)
    → holds d j y ≡ true
    → holds (add_names name fs d) j y ≡ true
unfolding add_names
holds-add_names name [] d j y held = held
holds-add_names name (f ∷ fs) d j y held =
    holds-add_names name fs (add_to_set name f.name d) j y (holds-add_to_set name f.name d j y held)

pub holds-add_dependencies :
    (ps : Dict String FeatureViewProjection) (d : Dict String (List String)) (j y : String)
    → holds d j y ≡ true
    → holds (add_dependencies ps d) j y ≡ true
unfolding add_dependencies
holds-add_dependencies [] d j y held = held
holds-add_dependencies ((_, p) ∷ ps) d j y held =
    holds-add_dependencies ps (add_names p.name p.features d) j y
      (holds-add_names p.name p.features d j y held)

-- The sets that have at least what others have.
pub record Grows (s t : Sets) : Type 0 where
  pub views : (j y : String) → holds s.views_features j y ≡ true → holds t.views_features j y ≡ true
  pub on_demand :
      (j y : String)
      → holds s.on_demand_view_features j y ≡ true
      → holds t.on_demand_view_features j y ≡ true
  pub request :
      (j y : String)
      → holds s.request_views_features j y ≡ true
      → holds t.request_views_features j y ≡ true

pub Grows-refl : (s : Sets) → Grows s s
Grows-refl s = record {
  views = λ j y held. held;
  on_demand = λ j y held. held;
  request = λ j y held. held;
}

pub Grows-trans : (s t u : Sets) → Grows s t → Grows t u → Grows s u
Grows-trans s t u g h = record {
  views = λ j y held. h.views j y (g.views j y held);
  on_demand = λ j y held. h.on_demand j y (g.on_demand j y held);
  request = λ j y held. h.request j y (g.request j y held);
}
