-- ===== src/FeatureStore/Entities/Mapping.antt =====
-- `apply_list_mapping` after `_get_unique_entities` (sdk/python/feast/feature_store.py): what is read once
-- for each distinct row comes back at every row.
use feast.Base.{
  ℕ, ◌≡◌, refl, sym, ap, ◌∙◌, Bool, Option, some, List, [], ◌∷◌, map, ok, length, get_elem?, eq-map,
  length-map, All, inl, inr, Eq, suc, zero, ◌++◌,
}
use feast.FeatureStore.Entities.{
  enumerate_from, sort_rows, transpose, row_groups, map_lists, nones, apply_list_mapping,
}
use feast.FeatureStore.Entities.Writes.{
  write_pairs, pairs, group_pairs, Written, Agrees, map_lists-write_pairs, write_pairs-ok,
}
use feast.FeatureStore.Entities.Groups.{
  group_pairs-group_rows, total_length-group_pairs, sorted-Agrees, sorted-Written, length-sorted,
}

module _ {A B : Type 0} (f : A → B) where
  abbrev mapped : ℕ × A → ℕ × B
  mapped (i, a) = (i, f a)

  group_pairs-map :
      (gs : List (A × List ℕ))
      → group_pairs (map (λ (g : A × List ℕ). (f g.0, g.1)) gs) ≡ map mapped (group_pairs gs)
  group_pairs-map [] = refl
  group_pairs-map ((a, is) ∷ gs) = go is (group_pairs-map gs)
    where
      go :
          (is : List ℕ)
          → group_pairs (map (λ (g : A × List ℕ). (f g.0, g.1)) gs) ≡ map mapped (group_pairs gs)
          → pairs (f a) is ++ group_pairs (map (λ (g : A × List ℕ). (f g.0, g.1)) gs)
            ≡ map mapped (pairs a is ++ group_pairs gs)
      go [] h = h
      go (i ∷ is) h = ap (◌∷◌ (i, f a)) (go is h)

  get_elem?-map :
      (xs : List A) (i : ℕ) (a : A) → get_elem? xs i ≡ some a → get_elem? (map f xs) i ≡ some (f a)
  get_elem?-map [] i a h = cc
  get_elem?-map (x ∷ xs) zero a h = cc
  get_elem?-map (x ∷ xs) (suc i) a h = get_elem?-map xs i a h

  mapped-Agrees :
      (rows : List A) (ws : List (ℕ × A))
      → All (Agrees rows) ws
      → All (Agrees (map f rows)) (map mapped ws)
  mapped-Agrees rows [] h = tt
  mapped-Agrees rows ((i, a) ∷ ws) (e, h) = (get_elem?-map rows i a e, mapped-Agrees rows ws h)

  mapped-Written : (i : ℕ) (ws : List (ℕ × A)) → Written i ws → Written i (map mapped ws)
  mapped-Written i [] w = elim w [ ]
  mapped-Written i ((j, a) ∷ ws) (inl e) = inl e
  mapped-Written i ((j, a) ∷ ws) (inr w) = inr (mapped-Written i ws w)

length-nones : (A : Type 0) (n : ℕ) → length (nones {A = A} n) ≡ n
unfolding nones
length-nones A zero = refl
length-nones A (suc n) = ap suc (length-nones A n)

module _ {A B : Type 0} (f : A → B) where
  abbrev regrouped : A × List ℕ → B × List ℕ
  regrouped (a, is) = (f a, is)

  items-regrouped :
      (gs : List (A × List ℕ))
      → map (λ (g : B × List ℕ). g.0) (map regrouped gs) ≡ map (λ (g : A × List ℕ). f g.0) gs
  items-regrouped [] = refl
  items-regrouped ((a, is) ∷ gs) = ap (◌∷◌ (f a)) (items-regrouped gs)

  indexes-regrouped :
      (gs : List (A × List ℕ))
      → map (λ (g : B × List ℕ). g.1) (map regrouped gs) ≡ map (λ (g : A × List ℕ). g.1) gs
  indexes-regrouped [] = refl
  indexes-regrouped ((a, is) ∷ gs) = ap (◌∷◌ is) (indexes-regrouped gs)

  map_lists-regrouped :
      (gs : List (A × List ℕ)) (out : List (Option B))
      → map_lists (map (λ (g : A × List ℕ). f g.0) gs) (map (λ (g : A × List ℕ). g.1) gs) out
        ≡ write_pairs (map (mapped f) (group_pairs gs)) out
  map_lists-regrouped gs out =
      ap (λ xs. map_lists xs (map (λ (g : A × List ℕ). g.1) gs) out) (sym (items-regrouped gs))
      ∙ ap (λ is. map_lists (map (λ (g : B × List ℕ). g.0) (map regrouped gs)) is out)
          (sym (indexes-regrouped gs))
      ∙ map_lists-write_pairs (map regrouped gs) out
      ∙ ap (λ ws. write_pairs ws out) (group_pairs-map f gs)

  -- Writes of what `f` gives for the rows, at all of their indexes, fill the list row by row.
  filled :
      (rows : List A) (ws : List (ℕ × A))
      → All (Agrees rows) ws
      → ((i : ℕ) (a : A) → get_elem? rows i ≡ some a → Written i ws)
      → length ws ≡ length rows
      → write_pairs (map (mapped f) ws) (nones (length ws)) ≡ ok (map (λ row. some (f row)) rows)
  filled rows ws agrees written size =
      let (out, made, full, held) =
        write_pairs-ok (map f rows) (map (mapped f) ws) (nones (length ws))
          (length-nones B (length ws) ∙ size ∙ sym (length-map f rows))
          (mapped-Agrees f rows ws agrees) in
      made
      ∙ ap ok (
          eq-map (λ row. some (f row)) out rows (full ∙ length-map f rows)
            λ i a h.
              held i (f a) (get_elem?-map f rows i a h)
                (inl (mapped-Written f i ws (written i a h))))

module _ {V B : Type 0} ⦃e : Eq (List V)⦄ (lt : List V → List V → Bool) (f : List V → B) where
  -- Whatever the order in which the rows of the columns are sorted: mapping what `f` gives for each of
  -- the distinct rows back to their indexes returns the list that `f` gives row by row.
  pub apply_list_mapping-row_groups :
      (columns : List (List V))
      → apply_list_mapping
          (map (λ (g : List V × List ℕ). f g.0) (row_groups lt columns))
          (map (λ (g : List V × List ℕ). g.1) (row_groups lt columns))
        ≡ ok (map (λ row. some (f row)) (transpose columns))
  unfolding apply_list_mapping row_groups
  apply_list_mapping-row_groups columns =
      map_lists-regrouped f (row_groups lt columns) _
      ∙ ap (λ n. write_pairs (map (mapped f) (group_pairs (row_groups lt columns))) (nones n))
          (total_length-group_pairs (row_groups lt columns))
      ∙ ap (λ ws. write_pairs (map (mapped f) ws) (nones (length ws)))
          (group_pairs-group_rows (sort_rows order (enumerate_from 0 (transpose columns))))
      ∙ filled f (transpose columns) (sort_rows order (enumerate_from 0 (transpose columns)))
          (sorted-Agrees order (transpose columns)) (sorted-Written order (transpose columns))
          (length-sorted order (transpose columns))
    where
      order : ℕ × List V → ℕ × List V → Bool
      order p q = lt p.1 q.1
