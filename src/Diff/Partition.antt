-- ===== src/Diff/Partition.antt =====
-- Which names the difference between the registry's objects and a repository's creates, deletes and compares
-- (sdk/python/feast/diff/registry_diff.py).
use feast.Base.{
  ◌≡◌, refl, ap, ◌∙◌, arith, String, Bool, true, false, not, ◌&&◌, ◌||◌, some, List, [], ◌∷◌, ◌++◌,
  map, ok, ◌>>=◌, any, filter, traverse, ◌==◌, string_eq, if◌then◌else◌, Bool-cases, inl, inr,
}
use feast.Base.Dict.{Dict}
use feast.Base.Searching.{
  any-filter, any-append, any-named, filter-any, traverse-cons, any-witness, and_true, and_false,
}
use feast.Diff.{create, delete, update, unchanged, PropertyDiff}
use feast.Diff.Registry.{ObjectDiff}
use feast.Diff.Tagging.{
  FieldValue, Objects, Tagged, among, with_names, tag_objects_for_keep_delete_update_add,
  diff_registry_objects, created, deleted, updated, diff_objects, transition_for, field_diffs,
}

-- Which names the differences of a kind have.
module _ {A : Type 0} where
  abbrev pub creates : String → ObjectDiff A → Bool
  creates n d = d.name == n && elim d.transition_type [ create ↦ true | _ ↦ false ]

  abbrev pub deletes : String → ObjectDiff A → Bool
  deletes n d = d.name == n && elim d.transition_type [ delete ↦ true | _ ↦ false ]

  abbrev pub compares : String → ObjectDiff A → Bool
  compares n d =
      d.name == n && elim d.transition_type [ update ↦ true | unchanged ↦ true | _ ↦ false ]

transition_for-kept :
    (ds : List PropertyDiff)
    → (elim (transition_for ds) [ update ↦ true | unchanged ↦ true | _ ↦ false ] ≡ true)
      × (elim (transition_for ds) [ create ↦ true | _ ↦ false ] ≡ false)
      × (elim (transition_for ds) [ delete ↦ true | _ ↦ false ] ≡ false)
unfolding transition_for
transition_for-kept [] = (refl, refl, refl)
transition_for-kept (d ∷ ds) = (refl, refl, refl)

module _ {A : Type 0} (objects : Objects A) (set_of : List A → List A)
    (elements : (q : String → Bool) (xs : List A)
      → any (λ e. q (objects.name_of e)) (set_of xs) ≡ any (λ e. q (objects.name_of e)) xs)
    (fields_of : A → Dict String FieldValue)
    (writes : (a : A) → objects.fields a ≡ ok (fields_of a)) (equal : A → A → Bool)
    (decides : (a b : A) → objects.same a b ≡ ok (equal a b)) where
  -- The name is one of the objects'; an empty name is none.
  abbrev pub listed : List A → String → Bool
  listed xs n = any (λ e. objects.name_of e == n) xs && not (n == "")

  among-with_names :
      (xs : List A) (n : String)
      → among objects set_of (with_names objects set_of xs) n ≡ listed xs n
  unfolding among with_names
  among-with_names xs n =
      any-filter (λ e. objects.name_of e == n) (λ e. not (objects.name_of e == "")) xs
      ∙ any-named objects.name_of n (λ k. not (k == "")) xs

  -- The names of a set of those objects whose names pass a test.
  any-set_of :
      (r : String → Bool) (xs : List A) (n : String)
      → any (λ e. objects.name_of e == n) (set_of (filter (λ e. r (objects.name_of e)) xs))
        ≡ (any (λ e. objects.name_of e == n) xs && r n)
  any-set_of r xs n =
      elements (λ k. k == n) (filter (λ e. r (objects.name_of e)) xs)
      ∙ any-filter (λ e. objects.name_of e == n) (λ e. r (objects.name_of e)) xs
      ∙ any-named objects.name_of n r xs

  diff_registry_objects-ok :
      (c e : A)
      → (d : ObjectDiff A) × (diff_registry_objects objects set_of c e ≡ ok d)
        × ((n : String)
            → (compares n d ≡ (objects.name_of e == n))
              × (creates n d ≡ false)
              × (deletes n d ≡ false))
  unfolding diff_registry_objects
  diff_registry_objects-ok c e = (
    record {
      name = objects.name_of e;
      current_feast_object = some c;
      new_feast_object = some e;
      feast_object_property_diffs = diffs;
      transition_type = transition_for diffs;
    },
    rw (writes c, writes e, decides c e) refl,
    λ n. (
      ap (◌&&◌ (objects.name_of e == n)) (transition_for-kept diffs).0
          ∙ and_true (objects.name_of e == n),
      ap (◌&&◌ (objects.name_of e == n)) (transition_for-kept diffs).1
          ∙ and_false (objects.name_of e == n),
      ap (◌&&◌ (objects.name_of e == n)) (transition_for-kept diffs).2
          ∙ and_false (objects.name_of e == n),
    ),
  )
    where
      diffs : List PropertyDiff
      diffs = if equal c e then [] else field_diffs (fields_of c) (fields_of e)

  updated-found :
      (keep : List A) (e c : A) (cs : List A)
      → filter (λ k. objects.name_of k == objects.name_of e) keep ≡ c ∷ cs
      → updated objects set_of keep e ≡ diff_registry_objects objects set_of c e
  unfolding updated
  updated-found keep e c cs found = rw (updated, found) refl

  -- Each object to be updated has its counterpart among those kept.
  updates-ok :
      (keep xs : List A)
      → any (λ e. not (any (λ k. objects.name_of k == objects.name_of e) keep)) xs ≡ false
      → (ds : List (ObjectDiff A)) × (traverse (updated objects set_of keep) xs ≡ ok ds)
        × ((n : String)
            → (any (compares n) ds ≡ any (λ e. objects.name_of e == n) xs)
              × (any (creates n) ds ≡ false)
              × (any (deletes n) ds ≡ false))
  unfolding any
  updates-ok keep [] h = ([], refl, λ n. (refl, refl, refl))
  updates-ok keep (e ∷ es) h =
      elim (Bool-cases (any (λ k. objects.name_of k == objects.name_of e) keep)) [
        | inr missing ↦ ground (arith, missing, h)
        | inl there ↦
            let (c, cs, found) =
              filter-any (λ k. objects.name_of k == objects.name_of e) keep there in
            let (d, did, marks) = diff_registry_objects-ok c e in
            let (ds, rest, later) = updates-ok keep es (ground (arith, there, h)) in
            (
              d ∷ ds,
              traverse-cons (updated objects set_of keep) e es d ds
                  (updated-found keep e c cs found ∙ did) rest,
              λ n. (
                rw ((marks n).0, (later n).0) refl,
                rw ((marks n).1, (later n).1) refl,
                rw ((marks n).2, (later n).2) refl,
              ),
            )
      ]

  -- What is created and what is deleted, by name.
  created-marks :
      (n : String) (xs : List A)
      → (any (creates n) (map (created objects set_of) xs) ≡ any (λ e. objects.name_of e == n) xs)
        × (any (deletes n) (map (created objects set_of) xs) ≡ false)
        × (any (compares n) (map (created objects set_of) xs) ≡ false)
  unfolding any created
  created-marks n [] = (refl, refl, refl)
  created-marks n (e ∷ es) = ground (arith, created-marks n es)

  deleted-marks :
      (n : String) (xs : List A)
      → (any (creates n) (map (deleted objects set_of) xs) ≡ false)
        × (any (deletes n) (map (deleted objects set_of) xs) ≡ any (λ e. objects.name_of e == n) xs)
        × (any (compares n) (map (deleted objects set_of) xs) ≡ false)
  unfolding any deleted
  deleted-marks n [] = (refl, refl, refl)
  deleted-marks n (e ∷ es) = ground (arith, deleted-marks n es)

  module _ (existing desired : List A) where
    abbrev tagged : Tagged A
    tagged = tag_objects_for_keep_delete_update_add objects set_of existing desired

    added-names :
        (n : String)
        → any (λ e. objects.name_of e == n) tagged.objs_to_add
          ≡ (listed desired n && not (listed existing n))
    unfolding tag_objects_for_keep_delete_update_add
    added-names n =
        any-set_of (λ k. not (among objects set_of (with_names objects set_of existing) k))
          (with_names objects set_of desired) n
        ∙ ap (λ b. b && not (among objects set_of (with_names objects set_of existing) n))
            (among-with_names desired n)
        ∙ ap (λ b. listed desired n && not b) (among-with_names existing n)

    deleted-names :
        (n : String)
        → any (λ e. objects.name_of e == n) tagged.objs_to_delete
          ≡ (listed existing n && not (listed desired n))
    unfolding tag_objects_for_keep_delete_update_add
    deleted-names n =
        any-set_of (λ k. not (among objects set_of (with_names objects set_of desired) k))
          (with_names objects set_of existing) n
        ∙ ap (λ b. b && not (among objects set_of (with_names objects set_of desired) n))
            (among-with_names existing n)
        ∙ ap (λ b. listed existing n && not b) (among-with_names desired n)

    updated-names :
        (n : String)
        → any (λ e. objects.name_of e == n) tagged.objs_to_update
          ≡ (listed desired n && listed existing n)
    unfolding tag_objects_for_keep_delete_update_add
    updated-names n =
        any-set_of (among objects set_of (with_names objects set_of existing))
          (with_names objects set_of desired) n
        ∙ ap (λ b. b && among objects set_of (with_names objects set_of existing) n)
            (among-with_names desired n)
        ∙ ap (◌&&◌ (listed desired n)) (among-with_names existing n)

    kept-names :
        (n : String)
        → any (λ e. objects.name_of e == n) tagged.objs_to_keep
          ≡ (listed existing n && listed desired n)
    unfolding tag_objects_for_keep_delete_update_add
    kept-names n =
        any-set_of (among objects set_of (with_names objects set_of desired))
          (with_names objects set_of existing) n
        ∙ ap (λ b. b && among objects set_of (with_names objects set_of desired) n)
            (among-with_names existing n)
        ∙ ap (◌&&◌ (listed existing n)) (among-with_names desired n)

    -- No object to be updated is without a counterpart.
    all-kept :
        any
          (λ e. not (any (λ k. objects.name_of k == objects.name_of e) tagged.objs_to_keep))
          tagged.objs_to_update
        ≡ false
    all-kept = elim (Bool-cases (any missing tagged.objs_to_update)) [
      | inr none_there ↦ none_there
      | inl some_there ↦
          let (k, lost, found) =
            any-witness objects.name_of
              (λ k. not (any (λ e. objects.name_of e == k) tagged.objs_to_keep))
              tagged.objs_to_update some_there in
          ground (arith, lost, found, kept-names k, updated-names k)
    ]
      where
        missing : A → Bool
        missing e = not (any (λ k. objects.name_of k == objects.name_of e) tagged.objs_to_keep)

    -- Where a set has the names of the objects that it is made of, and messages and comparisons of objects do not
    -- raise, the difference of the objects of one type is computed without an exception, and for every name
    -- it has a creation exactly if the name is desired and does not exist, a deletion exactly if it exists and
    -- is not desired, and a comparison of two objects exactly if it exists and is desired. Objects with an
    -- empty name are left out.
    pub diff_objects-names :
        (ds : List (ObjectDiff A)) × (diff_objects objects set_of existing desired ≡ ok ds)
        × ((n : String)
            → (any (creates n) ds ≡ (listed desired n && not (listed existing n)))
              × (any (deletes n) ds ≡ (listed existing n && not (listed desired n)))
              × (any (compares n) ds ≡ (listed existing n && listed desired n)))
    unfolding diff_objects
    diff_objects-names =
        let (us, did, marks) = updates-ok tagged.objs_to_keep tagged.objs_to_update all-kept in
        let adds = map (created objects set_of) tagged.objs_to_add in
        let dels = map (deleted objects set_of) tagged.objs_to_delete in
        (
          adds ++ dels ++ us,
          ap (λ r. r >>= λ updates. ok (adds ++ dels ++ updates)) did,
          λ n. (
            three (creates n) adds dels us
                ∙ ground (
                  arith,
                  created-marks n tagged.objs_to_add,
                  deleted-marks n tagged.objs_to_delete,
                  marks n,
                  added-names n,
                ),
            three (deletes n) adds dels us
                ∙ ground (
                  arith,
                  created-marks n tagged.objs_to_add,
                  deleted-marks n tagged.objs_to_delete,
                  marks n,
                  deleted-names n,
                ),
            three (compares n) adds dels us
                ∙ ground (
                  arith,
                  created-marks n tagged.objs_to_add,
                  deleted-marks n tagged.objs_to_delete,
                  marks n,
                  updated-names n,
                ),
          ),
        )
      where
        three :
            (p : ObjectDiff A → Bool) (xs ys zs : List (ObjectDiff A))
            → any p (xs ++ ys ++ zs) ≡ ((any p xs || any p ys) || any p zs)
        three p xs ys zs = any-append p (xs ++ ys) zs ∙ ap (λ b. b || any p zs) (any-append p xs ys)
