-- ===== src/FeatureStore/Entities.antt =====
-- The rows of entities of a request, grouped so that each entity is read once: `_get_unique_entities` and
-- `apply_list_mapping` of sdk/python/feast/feature_store.py. A row is a tuple of values.
pub mod Writes
pub mod Groups
pub mod Mapping
use feast.Base.{
  ℕ, zero, suc, ◌+◌, String, Bool, true, false, Option, none, some, List, [], ◌∷◌, ◌++◌, map,
  Result, ok, err, ◌>>=◌, value_error, index_error, type_error, Eq, ◌==◌, length, if◌then◌else◌,
}
use feast.Base.Dict.{Dict}
use mathlib.Core.Option

module _ {V : Type 0} where
  -- The first items of all columns, if none has ended, and what follows them.
  unfoldable pub heads : List (List V) → Option (List V)
  heads [] = some []
  heads ([] ∷ cs) = none
  heads ((x ∷ xs) ∷ cs) = Option.map (λ hs. x ∷ hs) (heads cs)

  unfoldable pub tails : List (List V) → List (List V)
  tails [] = []
  tails ([] ∷ cs) = [] ∷ tails cs
  tails ((x ∷ xs) ∷ cs) = xs ∷ tails cs

  unfoldable pub zip_from : List V → List (List V) → List (List V)
  unfolding heads tails
  zip_from [] cs = []
  zip_from (x ∷ xs) cs =
      let rest = zip_from xs (tails cs) in elim (heads cs) [ none ↦ [] | some hs ↦ (x ∷ hs) ∷ rest ]

  -- `zip(*columns)`
  unfoldable pub transpose : List (List V) → List (List V)
  unfolding zip_from
  transpose [] = []
  transpose (c ∷ cs) = zip_from c cs

module _ {A : Type 0} where
  -- `enumerate(xs)`, counted from the number given
  unfoldable pub enumerate_from : ℕ → List A → List (ℕ × A)
  enumerate_from i [] = []
  enumerate_from i (x ∷ xs) = (i, x) ∷ enumerate_from (suc i) xs

  -- `xs.sort(...)`, a stable sort by the order of what the key function gives.
  unfoldable pub insert_row : (A → A → Bool) → A → List A → List A
  insert_row lt x [] = x ∷ []
  insert_row lt x (y ∷ ys) = if lt y x then y ∷ insert_row lt x ys else x ∷ y ∷ ys

  unfoldable pub sort_rows : (A → A → Bool) → List A → List A
  unfolding insert_row
  sort_rows lt [] = []
  sort_rows lt (x ∷ xs) = insert_row lt x (sort_rows lt xs)

module _ {A : Type 0} ⦃e : Eq A⦄ where
  unfoldable pub add_to_group : ℕ → A → List (A × List ℕ) → List (A × List ℕ)
  add_to_group i r [] = (r, i ∷ []) ∷ []
  add_to_group i r ((k, is) ∷ gs) = if r == k then (r, i ∷ is) ∷ gs else (r, i ∷ []) ∷ (k, is) ∷ gs

  -- `[(k, [i for i, _ in g]) for k, g in itertools.groupby(rows, key=lambda x: x[1])]`
  unfoldable pub group_rows : List (ℕ × A) → List (A × List ℕ)
  unfolding add_to_group
  group_rows [] = []
  group_rows ((i, r) ∷ rest) = add_to_group i r (group_rows rest)

-- `dict(zip(keys, row))`, for keys that differ
unfoldable pub zip_row {ℓ κ} : {A : Type ℓ} {B : Type κ} → List A → List B → List (A × B)
zip_row (k ∷ ks) (v ∷ vs) = (k, v) ∷ zip_row ks vs
zip_row ks vs = []

module _ {V : Type 0} where
  -- The pair of the entities and the indexes. Without a row, it cannot be unpacked.
  unfoldable pub unzip_groups :
      List String → List (List V × List ℕ) → Result (List (Dict String V) × List (List ℕ))
  unfolding zip_row
  unzip_groups keys [] = err (value_error "not enough values to unpack (expected 2, got 0)")
  unzip_groups keys (g ∷ gs) = ok (
    map (λ (q : List V × List ℕ). zip_row keys q.0) (g ∷ gs),
    map (λ (q : List V × List ℕ). q.1) (g ∷ gs),
  )

module _ {V : Type 0} ⦃e : Eq (List V)⦄ (lt : List V → List V → Bool) where
  -- The groups of the rows of the columns. `lt` is the order of the tuples of the values' contents.
  unfoldable pub row_groups : List (List V) → List (List V × List ℕ)
  unfolding transpose enumerate_from sort_rows group_rows
  row_groups columns =
      group_rows (sort_rows (λ p q. lt p.1 q.1) (enumerate_from 0 (transpose columns)))

  -- `_get_unique_entities`, on the join keys and columns of a feature view.
  unfoldable pub get_unique_entities :
      Dict String (List V) → Result (List (Dict String V) × List (List ℕ))
  unfolding row_groups unzip_groups
  get_unique_entities table_entity_values =
      unzip_groups (map (λ (p : String × List V). p.0) table_entity_values)
        (row_groups (map (λ (p : String × List V). p.1) table_entity_values))

module _ {A : Type 0} where
  -- `output[idx] = elem`
  unfoldable pub set_index : List (Option A) → ℕ → A → Result (List (Option A))
  set_index [] i a = err index_error
  set_index (o ∷ os) zero a = ok (some a ∷ os)
  set_index (o ∷ os) (suc i) a = set_index os i a >>= λ rest. ok (o ∷ rest)

  unfoldable pub write_each : A → List ℕ → List (Option A) → Result (List (Option A))
  unfolding set_index
  write_each a [] out = ok out
  write_each a (i ∷ is) out = set_index out i a >>= λ out'. write_each a is out'

  unfoldable pub map_lists : List A → List (List ℕ) → List (Option A) → Result (List (Option A))
  unfolding write_each
  map_lists (a ∷ lst) (is ∷ rest) out = write_each a is out >>= λ out'. map_lists lst rest out'
  map_lists lst rest out = ok out

  -- `[None] * n`
  unfoldable pub nones : ℕ → List (Option A)
  nones zero = []
  nones (suc n) = none ∷ nones n

-- `sum(len(item) for item in mapping_indexes)`
unfoldable pub total_length : List (List ℕ) → ℕ
total_length [] = 0
total_length (is ∷ rest) = length is + total_length rest

unfoldable pub apply_list_mapping : {A : Type 0} → List A → List (List ℕ) → Result (List (Option A))
unfolding map_lists nones total_length
apply_list_mapping lst mapping_indexes =
    map_lists lst mapping_indexes (nones (total_length mapping_indexes))
