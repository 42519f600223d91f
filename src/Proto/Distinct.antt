-- ===== src/Proto/Distinct.antt =====
-- Lists of messages in which no two have the same name in the same project, and what the registry's
-- deletions and appends do to them.
use feast.Base.{
  String, ◌≡◌, refl, arith, Option, none, some, List, [], ◌∷◌, ◌++◌, string_eq, if◌then◌else◌,
  find_first, delete_first, delete_each, find_first-append_none, delete_each-none,
}
use feast.Proto.{Proto, matches, has_name}

module _ {B : Type 0} where
  abbrev pub find : String → String → List (Proto B) → Option (Proto B)
  find name project = find_first (matches name project)

  -- No two messages have the same name and project.
  abbrev pub Distinct : List (Proto B) → Type 0
  Distinct [] = Unit
  Distinct (p ∷ ps) = (find p.name p.project ps ≡ none) × Distinct ps

  -- What is found after `p` has been deleted under its key and appended.
  abbrev pub upserted : Proto B → List (Proto B) → List (Proto B)
  upserted p ps = delete_first (matches p.name p.project) ps ++ p ∷ []

  pub find-append :
      (name project : String) (ps : List (Proto B)) (p : Proto B)
      → find name project (ps ++ p ∷ []) ≡ elim (find name project ps) [
        | some q ↦ some q
        | none ↦ if matches name project p then some p else none
      ]
  unfolding find_first
  find-append name project [] p = refl
  find-append name project (q ∷ ps) p = ground (arith, find-append name project ps p)

  -- The first message under a key is deleted: others are found as before, and in a distinct list
  -- nothing is left under the key.
  pub find-delete_first_ne :
      (n m a b : String) (ps : List (Proto B))
      → ¬ ((n ≡ a) × (m ≡ b))
      → find n m (delete_first (matches a b) ps) ≡ find n m ps
  unfolding find_first delete_first matches
  find-delete_first_ne n m a b [] h = refl
  find-delete_first_ne n m a b (p ∷ ps) h = ground (arith, find-delete_first_ne n m a b ps h)

  pub find-delete_first :
      (a b : String) (ps : List (Proto B))
      → Distinct ps
      → find a b (delete_first (matches a b) ps) ≡ none
  unfolding find_first delete_first matches
  find-delete_first a b [] d = refl
  find-delete_first a b (p ∷ ps) d = ground (arith, find-delete_first a b ps d.1)

  find-delete_first-none :
      (n m a b : String) (ps : List (Proto B))
      → find n m ps ≡ none
      → find n m (delete_first (matches a b) ps) ≡ none
  unfolding find_first delete_first
  find-delete_first-none n m a b [] h = refl
  find-delete_first-none n m a b (p ∷ ps) h = ground (arith, find-delete_first-none n m a b ps)

  pub delete_first-Distinct :
      (a b : String) (ps : List (Proto B)) → Distinct ps → Distinct (delete_first (matches a b) ps)
  unfolding delete_first
  delete_first-Distinct a b [] d = tt
  delete_first-Distinct a b (p ∷ ps) d =
      ground (
        arith,
        delete_first-Distinct a b ps d.1,
        find-delete_first-none p.name p.project a b ps d.0,
      )

  pub append-Distinct :
      (ps : List (Proto B)) (p : Proto B)
      → Distinct ps
      → find p.name p.project ps ≡ none
      → Distinct (ps ++ p ∷ [])
  unfolding find_first matches
  append-Distinct [] p d h = (refl, tt)
  append-Distinct (q ∷ ps) p d h =
      ground (arith, append-Distinct ps p d.1, find-append q.name q.project ps p)

  pub upserted-Distinct :
      (p : Proto B) (ps : List (Proto B)) → Distinct ps → Distinct (upserted p ps)
  upserted-Distinct p ps d =
      append-Distinct (delete_first (matches p.name p.project) ps) p
        (delete_first-Distinct p.name p.project ps d) (find-delete_first p.name p.project ps d)

  -- A message that has replaced what stood under its key is found there, and nothing else changes.
  pub find-upserted :
      (n m : String) (p : Proto B) (ps : List (Proto B))
      → Distinct ps
      → find n m (upserted p ps) ≡ (if matches n m p then some p else find n m ps)
  unfolding matches
  find-upserted n m p ps d = ground (
    arith,
    find-append n m (delete_first (matches p.name p.project) ps) p,
    find-delete_first p.name p.project ps d,
    find-delete_first_ne n m p.name p.project ps,
  )

  -- The loop that goes on after a deletion deletes one message of a distinct list too.
  pub delete_each-Distinct :
      (a b : String) (ps : List (Proto B))
      → Distinct ps
      → delete_each (matches a b) ps ≡ delete_first (matches a b) ps
  unfolding delete_each delete_first matches find_first
  delete_each-Distinct a b [] d = refl
  delete_each-Distinct a b (p ∷ []) d = ground arith
  delete_each-Distinct a b (p ∷ q ∷ ps) d =
      ground (arith, delete_each-Distinct a b (q ∷ ps) d.1, delete_each-none (matches a b) ps)

  -- No two messages have the same name, whatever their projects.
  abbrev pub DistinctNames : List (Proto B) → Type 0
  DistinctNames [] = Unit
  DistinctNames (p ∷ ps) = (find_first (has_name p.name) ps ≡ none) × DistinctNames ps

  pub delete_each-DistinctNames :
      (a : String) (ps : List (Proto B))
      → DistinctNames ps
      → delete_each (has_name a) ps ≡ delete_first (has_name a) ps
  unfolding delete_each delete_first has_name find_first
  delete_each-DistinctNames a [] d = refl
  delete_each-DistinctNames a (p ∷ []) d = ground arith
  delete_each-DistinctNames a (p ∷ q ∷ ps) d =
      ground (arith, delete_each-DistinctNames a (q ∷ ps) d.1, delete_each-none (has_name a) ps)

  find_name-delete_first-none :
      (n a : String) (ps : List (Proto B))
      → find_first (has_name n) ps ≡ none
      → find_first (has_name n) (delete_first (has_name a) ps) ≡ none
  unfolding find_first delete_first
  find_name-delete_first-none n a [] h = refl
  find_name-delete_first-none n a (p ∷ ps) h = ground (arith, find_name-delete_first-none n a ps)

  pub delete_first-DistinctNames :
      (a : String) (ps : List (Proto B))
      → DistinctNames ps
      → DistinctNames (delete_first (has_name a) ps)
  unfolding delete_first
  delete_first-DistinctNames a [] d = tt
  delete_first-DistinctNames a (p ∷ ps) d =
      ground
        (arith, delete_first-DistinctNames a ps d.1, find_name-delete_first-none p.name a ps d.0)

  pub find_name-delete_first :
      (a : String) (ps : List (Proto B))
      → DistinctNames ps
      → find_first (has_name a) (delete_first (has_name a) ps) ≡ none
  unfolding find_first delete_first has_name
  find_name-delete_first a [] d = refl
  find_name-delete_first a (p ∷ ps) d = ground (arith, find_name-delete_first a ps d.1)

  pub append-DistinctNames :
      (ps : List (Proto B)) (p : Proto B)
      → DistinctNames ps
      → find_first (has_name p.name) ps ≡ none
      → DistinctNames (ps ++ p ∷ [])
  unfolding find_first has_name
  append-DistinctNames [] p d h = (refl, tt)
  append-DistinctNames (q ∷ ps) p d h =
      ground (arith, append-DistinctNames ps p d.1, find_first-append_none (has_name q.name) ps p)
