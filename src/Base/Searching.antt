-- ===== src/Base/Searching.antt =====
-- What is in a list, by a test of its elements: Python's `any`, and the lists that a test picks.
use feast.Base.{
  ◌≡◌, refl, ap, ◌∙◌, arith, String, Bool, true, false, ◌&&◌, ◌||◌, List, [], ◌∷◌, ◌++◌, map,
  Result, ok, err, any, filter, traverse, ◌==◌, string_eq, Bool-cases, inl, inr, ==-refl,
}

pub any-filter :
    {A : Type 0} (p q : A → Bool) (xs : List A) → any p (filter q xs) ≡ any (λ x. p x && q x) xs
unfolding any filter
any-filter p q [] = refl
any-filter p q (x ∷ xs) = ground (arith, any-filter p q xs)

pub any-append :
    {A : Type 0} (p : A → Bool) (xs ys : List A) → any p (xs ++ ys) ≡ (any p xs || any p ys)
unfolding any
any-append p [] ys = refl
any-append p (x ∷ xs) ys = ground (arith, any-append p xs ys)

pub any-map :
    {A B : Type 0} (p : B → Bool) (f : A → B) (xs : List A)
    → any p (map f xs) ≡ any (λ x. p (f x)) xs
unfolding any
any-map p f [] = refl
any-map p f (x ∷ xs) = ground (arith, any-map p f xs)

pub any-named :
    {A : Type 0} (name_of : A → String) (k : String) (r : String → Bool) (xs : List A)
    → any (λ x. name_of x == k && r (name_of x)) xs ≡ (any (λ x. name_of x == k) xs && r k)
unfolding any
any-named name_of k r [] = refl
any-named name_of k r (x ∷ xs) = ground (arith, any-named name_of k r xs)

pub any-false : {A : Type 0} (xs : List A) → any (λ x. false) xs ≡ false
unfolding any
any-false [] = refl
any-false (x ∷ xs) = any-false xs

pub filter-any :
    {A : Type 0} (p : A → Bool) (xs : List A)
    → any p xs ≡ true
    → (y : A) × (ys : List A) × (filter p xs ≡ y ∷ ys)
unfolding any filter
filter-any p [] h = ground arith
filter-any p (x ∷ xs) h = elim (Bool-cases (p x)) [
  | inl holds ↦ (x, filter p xs, rw holds refl)
  | inr fails ↦
      let (y, ys, found) = filter-any p xs (ground (arith, fails, h)) in (y, ys, rw fails found)
]

pub traverse-cons :
    {A B : Type 0} (g : A → Result B) (x : A) (xs : List A) (y : B) (ys : List B)
    → g x ≡ ok y
    → traverse g xs ≡ ok ys
    → traverse g (x ∷ xs) ≡ ok (y ∷ ys)
traverse-cons g x xs y ys first rest =
    ap
      (λ r. elim r [
        | err e ↦ err e
        | ok z ↦ elim (traverse g xs) [ err e ↦ err e | ok zs ↦ ok (z ∷ zs) ]
      ])
      first
    ∙ ap (λ r. elim r [ err e ↦ err e | ok zs ↦ ok (y ∷ zs) ]) rest

pub any-witness :
    {A : Type 0} (name_of : A → String) (s : String → Bool) (xs : List A)
    → any (λ x. s (name_of x)) xs ≡ true
    → (k : String) × (s k ≡ true) × (any (λ x. name_of x == k) xs ≡ true)
unfolding any
any-witness name_of s [] h = ground arith
any-witness name_of s (x ∷ xs) h = elim (Bool-cases (s (name_of x))) [
  | inl holds ↦ (name_of x, holds, rw (==-refl (name_of x)) refl)
  | inr fails ↦
      let (k, holds, found) = any-witness name_of s xs (ground (arith, fails, h)) in
      (k, holds, ground (arith, found))
]

pub and_true : (b : Bool) → (b && true) ≡ b
and_true true = refl
and_true false = refl

pub and_false : (b : Bool) → (b && false) ≡ false
and_false true = refl
and_false false = refl
