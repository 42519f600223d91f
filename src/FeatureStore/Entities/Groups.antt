-- ===== src/FeatureStore/Entities/Groups.antt =====
-- The groups of rows of `_get_unique_entities` (sdk/python/feast/feature_store.py): they have every row
-- once, under its index.
use feast.Base.{
  ℕ, zero, suc, ◌+◌, Bool, ◌≡◌, refl, ap, ◌∙◌, subst, some, List, [], ◌∷◌, ◌++◌, map, length,
  get_elem?, length-append, length-map, All, ◌⊎◌, inl, inr, arith, Eq, ◌==◌, ==-eq, Bool-cases,
}
use feast.FeatureStore.Entities.{
  enumerate_from, insert_row, sort_rows, add_to_group, group_rows, total_length,
}
use feast.FeatureStore.Entities.Writes.{pairs, group_pairs, Written, Agrees}

module _ {A : Type 0} where
  enumerate_from-Agrees :
      (full : List A) (k : ℕ) (xs : List A)
      → ((i : ℕ) → get_elem? full (k + i) ≡ get_elem? xs i)
      → All (Agrees full) (enumerate_from k xs)
  unfolding enumerate_from
  enumerate_from-Agrees full k [] h = tt
  enumerate_from-Agrees full k (x ∷ xs) h = (
    ap (get_elem? full) (omega arith) ∙ h 0,
    enumerate_from-Agrees full (suc k) xs λ i. ap (get_elem? full) (omega arith) ∙ h (suc i),
  )

  enumerate_from-Written :
      (k : ℕ) (xs : List A) (i : ℕ) (a : A)
      → get_elem? xs i ≡ some a
      → Written (k + i) (enumerate_from k xs)
  unfolding enumerate_from
  enumerate_from-Written k [] i a h = cc
  enumerate_from-Written k (x ∷ xs) zero a h = inl (omega arith)
  enumerate_from-Written k (x ∷ xs) (suc i) a h = inr (
      subst (λ n. Written n (enumerate_from (suc k) xs)) (omega arith)
        (enumerate_from-Written (suc k) xs i a h))

  length-enumerate_from : (k : ℕ) (xs : List A) → length (enumerate_from k xs) ≡ length xs
  unfolding enumerate_from
  length-enumerate_from k [] = refl
  length-enumerate_from k (x ∷ xs) = omega (arith, length-enumerate_from (suc k) xs)

module _ {A : Type 0} (P : A → Type 0) (lt : A → A → Bool) where
  insert_row-All : (x : A) (xs : List A) → P x → All P xs → All P (insert_row lt x xs)
  unfolding insert_row
  insert_row-All x [] p h = (p, tt)
  insert_row-All x (y ∷ ys) p (q, h) = elim (Bool-cases (lt y x)) [
    | inl before ↦ rw before (q, insert_row-All x ys p h)
    | inr after ↦ rw after (p, (q, h))
  ]

  sort_rows-All : (xs : List A) → All P xs → All P (sort_rows lt xs)
  unfolding sort_rows
  sort_rows-All [] h = tt
  sort_rows-All (x ∷ xs) (p, h) = insert_row-All x (sort_rows lt xs) p (sort_rows-All xs h)

module _ {A : Type 0} (lt : ℕ × A → ℕ × A → Bool) where
  insert_row-Written :
      (i : ℕ) (x : ℕ × A) (xs : List (ℕ × A)) → Written i (x ∷ xs) → Written i (insert_row lt x xs)
  unfolding insert_row
  insert_row-Written i x [] w = w
  insert_row-Written i x (y ∷ ys) w = elim (Bool-cases (lt y x)) [
    | inl before ↦ rw before (go (insert_row-Written i x ys) w)
    | inr after ↦ rw after w
  ]
    where
      go :
          (Written i (x ∷ ys) → Written i (insert_row lt x ys))
          → (i ≡ x.0) ⊎ ((i ≡ y.0) ⊎ Written i ys)
          → (i ≡ y.0) ⊎ Written i (insert_row lt x ys)
      go later (inl e) = inr (later (inl e))
      go later (inr (inl e)) = inl e
      go later (inr (inr w)) = inr (later (inr w))

  sort_rows-Written : (i : ℕ) (xs : List (ℕ × A)) → Written i xs → Written i (sort_rows lt xs)
  unfolding sort_rows
  sort_rows-Written i [] w = elim w [ ]
  sort_rows-Written i (x ∷ xs) (inl e) = insert_row-Written i x (sort_rows lt xs) (inl e)
  sort_rows-Written i (x ∷ xs) (inr w) =
      insert_row-Written i x (sort_rows lt xs) (inr (sort_rows-Written i xs w))

module _ {A : Type 0} (lt : A → A → Bool) where
  length-insert_row : (x : A) (xs : List A) → length (insert_row lt x xs) ≡ suc (length xs)
  unfolding insert_row
  length-insert_row x [] = refl
  length-insert_row x (y ∷ ys) = ground (arith, length-insert_row x ys)

  length-sort_rows : (xs : List A) → length (sort_rows lt xs) ≡ length xs
  unfolding sort_rows
  length-sort_rows [] = refl
  length-sort_rows (x ∷ xs) = length-insert_row x (sort_rows lt xs) ∙ ap suc (length-sort_rows xs)

module _ {A : Type 0} ⦃e : Eq A⦄ where
  group_pairs-add_to_group :
      (i : ℕ) (r : A) (gs : List (A × List ℕ))
      → group_pairs (add_to_group i r gs) ≡ (i, r) ∷ group_pairs gs
  unfolding add_to_group
  group_pairs-add_to_group i r [] = refl
  group_pairs-add_to_group i r ((k, is) ∷ gs) = elim (Bool-cases (r == k)) [
    | inl same ↦ rw same (ap (λ q. (i, r) ∷ pairs q is ++ group_pairs gs) (==-eq r k same))
    | inr other ↦ rw other
  ]

  -- The groups hold the pairs that were grouped, in order.
  pub group_pairs-group_rows : (xs : List (ℕ × A)) → group_pairs (group_rows xs) ≡ xs
  unfolding group_rows
  group_pairs-group_rows [] = refl
  group_pairs-group_rows ((i, r) ∷ xs) =
      group_pairs-add_to_group i r (group_rows xs) ∙ ap (◌∷◌ (i, r)) (group_pairs-group_rows xs)

length-pairs : {A : Type 0} (a : A) (is : List ℕ) → length (pairs a is) ≡ length is
length-pairs {A} a is = length-map {B = ℕ × A} (λ i. (i, a)) is

pub total_length-group_pairs :
    {A : Type 0} (gs : List (A × List ℕ))
    → total_length (map (λ (g : A × List ℕ). g.1) gs) ≡ length (group_pairs gs)
unfolding total_length
total_length-group_pairs [] = refl
total_length-group_pairs ((a, is) ∷ gs) = omega (
  arith,
  total_length-group_pairs gs,
  length-append (pairs a is) (group_pairs gs),
  length-pairs a is,
)

-- What the rows with their indexes, sorted, are: each is under its index, each index is there, and there
-- are as many as rows.
module _ {A : Type 0} (lt : ℕ × A → ℕ × A → Bool) (rows : List A) where
  pub sorted-Agrees : All (Agrees rows) (sort_rows lt (enumerate_from 0 rows))
  sorted-Agrees =
      sort_rows-All (Agrees rows) lt (enumerate_from 0 rows)
        (enumerate_from-Agrees rows 0 rows λ i. ap (get_elem? rows) (omega arith))

  pub sorted-Written :
      (i : ℕ) (a : A) → get_elem? rows i ≡ some a → Written i (sort_rows lt (enumerate_from 0 rows))
  sorted-Written i a h = sort_rows-Written lt i (enumerate_from 0 rows) (
      subst (λ n. Written n (enumerate_from 0 rows)) (omega arith)
        (enumerate_from-Written 0 rows i a h))

  pub length-sorted : length (sort_rows lt (enumerate_from 0 rows)) ≡ length rows
  length-sorted = length-sort_rows lt (enumerate_from 0 rows) ∙ length-enumerate_from 0 rows
