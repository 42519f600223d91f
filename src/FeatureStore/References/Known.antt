-- ===== src/FeatureStore/References/Known.antt =====
-- The names of views in the dicts of `_group_feature_refs` of sdk/python/feast/feature_store.py.
use feast.Base.{
  ◌≡◌, refl, sym, ap, ◌∙◌, subst, arith, String, Bool, true, false, ◌||◌, Option, none, some, List,
  [], ◌∷◌, ok, All, any, ◌==◌, string_eq, if◌then◌else◌, Bool-cases, Option-cases, inl, inr,
}
use feast.Base.Dict.{Dict, lookup, insert, lookup-insert}
use feast.Field.{Field}
use feast.Projection.{FeatureViewProjection, name_to_use}
use feast.FeatureView.{FeatureView}
use feast.OnDemandFeatureView.{OnDemandFeatureView}
use feast.FeatureStore.References.Grouping.{
  index_by_name, add_to_set, add_names, add_dependencies, resolved,
}
use feast.FeatureStore.References.Held.{add_to_set-cases}

module _ {V : Type 0} where
  -- `k in d`
  abbrev pub known : Dict String V → String → Bool
  known d k = elim (lookup k d) [ none ↦ false | some _ ↦ true ]

  pub known-some : (d : Dict String V) (k : String) (v : V) → lookup k d ≡ some v → known d k ≡ true
  known-some d k v there = ap (λ (o : Option V). elim o [ none ↦ false | some _ ↦ true ]) there

  known-insert :
      (k : String) (v : V) (d : Dict String V) (j : String)
      → known (insert k v d) j ≡ (k == j || known d j)
  known-insert k v d j =
      ap (λ (o : Option V). elim o [ none ↦ false | some _ ↦ true ]) (lookup-insert j k v d)
      ∙ elim (Bool-cases (k == j)) [ inl same ↦ rw same refl | inr other ↦ rw other refl ]

  pub All-insert :
      (P : String × V → Type 0) (k : String) (v : V) (d : Dict String V)
      → P (k, v)
      → All P d
      → All P (insert k v d)
  unfolding insert
  All-insert P k v [] p all = (p, tt)
  All-insert P k v ((j, w) ∷ d) p (q, all) = elim (Bool-cases (j == k)) [
    | inl same ↦ rw same (p, all)
    | inr other ↦ rw other (q, All-insert P k v d p all)
  ]

  -- What is found in a dict, if anything is, has what all its values have.
  abbrev pub FoundHas : (V → Type 0) → Option V → Type 0
  FoundHas P none = Unit
  FoundHas P (some v) = P v

  pub lookup-FoundHas :
      (P : V → Type 0) (k : String) (d : Dict String V)
      → All (λ e. P e.1) d
      → FoundHas P (lookup k d)
  unfolding lookup
  lookup-FoundHas P k [] all = tt
  lookup-FoundHas P k ((j, w) ∷ d) (p, all) = elim (Bool-cases (j == k)) [
    | inl same ↦ rw same p
    | inr other ↦ rw other (lookup-FoundHas P k d all)
  ]

  pub resolved-ok :
      (set_order : List String → List String) (index : Dict String V)
      → (sets : Dict String (List String)) → All (λ e. known index e.0 ≡ true) sets
      → (rs : List (V × List String)) × (resolved set_order index sets ≡ ok rs)
  unfolding resolved
  resolved-ok set_order index [] all = ([], refl)
  resolved-ok set_order index ((k, xs) ∷ sets) (p, all) =
      let (rs, rest) = resolved-ok set_order index sets all in
      elim (Option-cases (lookup k index)) [
        | inl missing ↦ ([], cc (p, missing))
        | inr (v, there) ↦ ((v, set_order xs) ∷ rs, ground (arith, there, rest))
      ]

module _ {V : Type 0} (index : Dict String V) where
  abbrev pub KeysKnown : Dict String (List String) → Type 0
  KeysKnown d = All (λ e. known index e.0 ≡ true) d

  pub add_to_set-KeysKnown :
      (k x : String) (d : Dict String (List String))
      → known index k ≡ true
      → KeysKnown d
      → KeysKnown (add_to_set k x d)
  add_to_set-KeysKnown k x d there all =
      let (xs, inserted, _, _) = add_to_set-cases k x d in
      subst KeysKnown (sym inserted) (All-insert (λ e. known index e.0 ≡ true) k xs d there all)

  add_names-KeysKnown :
      (k : String) (fs : List Field) (d : Dict String (List String))
      → known index k ≡ true
      → KeysKnown d
      → KeysKnown (add_names k fs d)
  unfolding add_names
  add_names-KeysKnown k [] d there all = all
  add_names-KeysKnown k (f ∷ fs) d there all =
      add_names-KeysKnown k fs (add_to_set k f.name d) there
        (add_to_set-KeysKnown k f.name d there all)

  abbrev pub SourcesKnown : Dict String FeatureViewProjection → Type 0
  SourcesKnown ps = All (λ q. known index q.1.name ≡ true) ps

  pub add_dependencies-KeysKnown :
      (ps : Dict String FeatureViewProjection) (d : Dict String (List String))
      → SourcesKnown ps
      → KeysKnown d
      → KeysKnown (add_dependencies ps d)
  unfolding add_dependencies
  add_dependencies-KeysKnown [] d sources all = all
  add_dependencies-KeysKnown ((_, p) ∷ ps) d (there, sources) all =
      add_dependencies-KeysKnown ps (add_names p.name p.features d) sources
        (add_names-KeysKnown p.name p.features d there all)

-- The name is the one of a view among them.
abbrev pub is_among : List FeatureView → String → Bool
is_among views name = any (λ (v : FeatureView). name_to_use v.projection == name) views

or_swap : (a b c : Bool) → (a || (b || c)) ≡ ((b || a) || c)
or_swap true true c = refl
or_swap true false c = refl
or_swap false true c = refl
or_swap false false c = refl

if_or : (a b : Bool) → (if a then true else b) ≡ (a || b)
if_or true b = refl
if_or false b = refl

or_false : (a : Bool) → (a || false) ≡ a
or_false true = refl
or_false false = refl

known-index_by_name :
    (views : List FeatureView) (acc : Dict String FeatureView) (name : String)
    → (known acc name || is_among views name) ≡ true
    → known (index_by_name (λ (v : FeatureView). v.projection) views acc) name ≡ true
unfolding index_by_name any
known-index_by_name [] acc name there = sym (or_false (known acc name)) ∙ there
known-index_by_name (v ∷ vs) acc name there =
    known-index_by_name vs (insert (name_to_use v.projection) v acc) name (
      ap (λ b. b || is_among vs name) (known-insert (name_to_use v.projection) v acc name)
      ∙ sym (or_swap (known acc name) (name_to_use v.projection == name) (is_among vs name))
      ∙ ap (λ b. known acc name || b)
          (sym (if_or (name_to_use v.projection == name) (is_among vs name)))
      ∙ there)

pub All-index_by_name :
    {V : Type 0} (P : V → Type 0) (projection : V → FeatureViewProjection) (vs : List V)
    → (acc : Dict String V) → All P vs
    → All (λ e. P e.1) acc
    → All (λ e. P e.1) (index_by_name projection vs acc)
unfolding index_by_name
All-index_by_name P projection [] acc all held = held
All-index_by_name P projection (v ∷ vs) acc (p, all) held =
    All-index_by_name P projection vs (insert (name_to_use (projection v)) v acc) all
      (All-insert (λ e. P e.1) (name_to_use (projection v)) v acc p held)

index_by_name-sources :
    (views : List FeatureView) (ps : Dict String FeatureViewProjection)
    → All (λ q. is_among views q.1.name ≡ true) ps
    → SourcesKnown (index_by_name (λ (v : FeatureView). v.projection) views []) ps
unfolding lookup any
index_by_name-sources views [] all = tt
index_by_name-sources views ((_, p) ∷ ps) (there, all) =
    (known-index_by_name views [] p.name there, index_by_name-sources views ps all)

-- Every source of an on demand view goes by the name of one of the views.
abbrev pub SourcesAmong : List FeatureView → OnDemandFeatureView → Type 0
SourcesAmong views v = All (λ q. is_among views q.1.name ≡ true) v.source_feature_view_projections

pub SourcesAmong-known :
    (views : List FeatureView) (vs : List OnDemandFeatureView)
    → All (SourcesAmong views) vs
    → All
        (λ (v : OnDemandFeatureView).
          SourcesKnown
            (index_by_name (λ (w : FeatureView). w.projection) views [])
            v.source_feature_view_projections)
        vs
SourcesAmong-known views [] all = tt
SourcesAmong-known views (v ∷ vs) (here, all) = (
  index_by_name-sources views v.source_feature_view_projections here,
  SourcesAmong-known views vs all,
)
