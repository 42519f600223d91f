-- ===== src/Diff/Update.antt =====
-- What `InfraDiff.update` of sdk/python/feast/diff/infra_diff.py does with the differences that
-- `diff_infra_protos` finds.
use feast.Base.{
  ◌≡◌, refl, sym, ap, ◌∙◌, String, Bool, true, false, not, List, [], ◌∷◌, ◌++◌, map, none, some,
  ◌==◌, string_eq, option_eq, if◌then◌else◌, ◌&&◌, Result, ok, err, ◌>>=◌, All, filter, any,
  find_first, traverse, arith, inl, inr, Bool-cases,
}
use mathlib.Core.List.{append_assoc}
use feast.Infra.{InfraTable, datastore_table, dynamodb_table, sqlite_table, table_name, class_of}
use feast.Diff.{update, unchanged}
use feast.Diff.Infra.{
  InfraObjectDiff, table_fields, property_diffs, same_fields, diff_between, named_in,
  tag_infra_proto_objects_for_keep_delete_add, Kind, created, deleted, compared, diff_kind,
  TableCall, tears_down, updates, apply_infra_object_diff, update_infra, rebuilt, and_later,
}

-- Whether two tables of one class differ in more than their project.
abbrev pub differs : InfraTable → InfraTable → Bool
differs (datastore_table p n i s) (datastore_table p' n' i' s') =
    not (n == n' && (i == i' && s == s'))
differs (dynamodb_table n r) (dynamodb_table n' r') = not (n == n' && r == r')
differs (sqlite_table p n) (sqlite_table p' n') = not (p == p' && n == n')
differs current new = false

-- Two tables of one class compare as unchanged where they differ at most in their project, and as
-- updated elsewhere.
pub diff_between-differs :
    (current new : InfraTable) (word : String)
    → class_of current ≡ class_of new
    → (d : InfraObjectDiff) × (diff_between current new word ≡ ok d)
      × (d.current_infra_object ≡ some current)
      × (d.new_infra_object ≡ some new)
      × (d.transition_type ≡ (if differs current new then update else unchanged))
unfolding diff_between same_fields property_diffs table_fields class_of string_eq option_eq
diff_between-differs (datastore_table p n i s) (datastore_table p' n' i' s') word h =
    (_, refl, refl, refl, ground arith)
diff_between-differs (dynamodb_table n r) (dynamodb_table n' r') word h =
    (_, refl, refl, refl, ground arith)
diff_between-differs (sqlite_table p n) (sqlite_table p' n') word h =
    (_, refl, refl, refl, ground arith)
diff_between-differs _ _ word h = absurd (ground arith)

module _ {A : Type 0} where
  filter-All :
      (P : A → Bool) (Q : A → Type 0) (xs : List A)
      → All Q xs
      → All (λ x. Q x × (P x ≡ true)) (filter P xs)
  unfolding filter
  filter-All P Q [] h = tt
  filter-All P Q (x ∷ xs) (q, h) = elim (Bool-cases (P x)) [
    | inl holds ↦ rw holds ((q, holds), filter-All P Q xs h)
    | inr fails ↦ rw fails (filter-All P Q xs h)
  ]

  -- What is found where something was, by the items' common property.
  find_first-any :
      (P : A → Bool) (Q : A → Type 0) (xs : List A)
      → All Q xs
      → any P xs ≡ true
      → (x : A) × (find_first P xs ≡ some x) × Q x
  unfolding any find_first
  find_first-any P Q [] h there = absurd (ground arith)
  find_first-any P Q (x ∷ xs) (q, h) there = elim (Bool-cases (P x)) [
    | inl holds ↦ (x, rw holds, q)
    | inr fails ↦
        let (y, found, qy) = find_first-any P Q xs h (ground arith) in (y, rw (fails, found), qy)
  ]

-- Updates one after the other, where the first of them ends.
pub update_infra-append :
    (ds es : List InfraObjectDiff) (before later : List TableCall)
    → update_infra ds ≡ (before, ok tt)
    → update_infra es ≡ (later, ok tt)
    → update_infra (ds ++ es) ≡ (before ++ later, ok tt)
unfolding update_infra and_later
update_infra-append ds es before later h k = runs ds (ap (λ o. o.1) h) ∙ rw (h, k)
  where
    extends :
        (r : Result (List TableCall)) (ds : List InfraObjectDiff)
        → (and_later r (update_infra ds)).1 ≡ ok tt
        → ((update_infra ds).1 ≡ ok tt
            → update_infra (ds ++ es)
              ≡ ((update_infra ds).0 ++ (update_infra es).0, (update_infra es).1))
        → and_later r (update_infra (ds ++ es))
          ≡ ((and_later r (update_infra ds)).0 ++ (update_infra es).0, (update_infra es).1)
    extends (ok calls) ds h rest =
        rw (rest h) (ap (λ cs. (cs, (update_infra es).1)) (sym (append_assoc calls _ _)))
    extends (err e) ds h rest = absurd (ground arith)

    runs :
        (ds : List InfraObjectDiff)
        → (update_infra ds).1 ≡ ok tt
        → update_infra (ds ++ es)
          ≡ ((update_infra ds).0 ++ (update_infra es).0, (update_infra es).1)
    runs [] h = refl
    runs (d ∷ ds) h = extends (apply_infra_object_diff d) ds h (runs ds)

update_infra-created :
    (kind : Kind) (ts : List InfraTable)
    → update_infra (map (created kind) ts) ≡ (map updates ts, ok tt)
unfolding update_infra apply_infra_object_diff rebuilt and_later
update_infra-created kind [] = refl
update_infra-created kind (t ∷ ts) = rw (update_infra-created kind ts)

update_infra-deleted :
    (kind : Kind) (ts : List InfraTable)
    → update_infra (map (deleted kind) ts) ≡ (map tears_down ts, ok tt)
unfolding update_infra apply_infra_object_diff rebuilt and_later
update_infra-deleted kind [] = refl
update_infra-deleted kind (t ∷ ts) = rw (update_infra-deleted kind ts)

-- The call for a table that stays, by what is there under its name.
abbrev pub calls_for_kept : List InfraTable → InfraTable → List TableCall
calls_for_kept current_tables e =
    elim (find_first (λ o. table_name o == table_name e) current_tables) [
      | none ↦ []
      | some current ↦ if differs current e then tears_down current ∷ [] else []
    ]

abbrev pub calls_for_each_kept : List InfraTable → List InfraTable → List TableCall
calls_for_each_kept current_tables [] = []
calls_for_each_kept current_tables (e ∷ es) =
    calls_for_kept current_tables e ++ calls_for_each_kept current_tables es

-- The calls for the tables of one class: those with a new name are updated; those whose name is gone are
-- torn down; and of those that stay, the ones that differ in more than the project are torn down.
abbrev pub calls_for : List InfraTable → List InfraTable → List TableCall
calls_for current_tables new_tables =
    map updates (filter (λ e. not (named_in current_tables (table_name e))) new_tables)
    ++ map tears_down (filter (λ e. not (named_in new_tables (table_name e))) current_tables)
    ++ calls_for_each_kept current_tables
        (filter (λ e. named_in current_tables (table_name e)) new_tables)

apply_infra_object_diff-kept :
    (d : InfraObjectDiff) (current : InfraTable) (b : Bool)
    → d.current_infra_object ≡ some current
    → d.transition_type ≡ (if b then update else unchanged)
    → apply_infra_object_diff d ≡ ok (if b then tears_down current ∷ [] else [])
unfolding apply_infra_object_diff rebuilt
apply_infra_object_diff-kept d current true h k = rw (k, h)
apply_infra_object_diff-kept d current false h k = rw k

module _ (kind : Kind) where
  abbrev pub OfKind : InfraTable → Type 0
  OfKind e = class_of e ≡ kind.class_type

  compared-kept :
      (ts : List InfraTable) (e : InfraTable)
      → All OfKind ts
      → OfKind e
      → named_in ts (table_name e) ≡ true
      → (d : InfraObjectDiff) × (compared kind ts e ≡ ok d)
        × (apply_infra_object_diff d ≡ ok (calls_for_kept ts e))
  unfolding compared named_in
  compared-kept ts e hs h there =
      let (current, found, same) =
        find_first-any (λ o. table_name o == table_name e) OfKind ts hs there in
      let (d, made, olds, news, moved) = diff_between-differs current e kind.word (same ∙ sym h) in
      (
        d,
        rw (found, compared) made,
        rw (calls_for_kept, found)
            (apply_infra_object_diff-kept d current (differs current e) olds moved),
      )

  update_infra-kept :
      (ts es : List InfraTable)
      → All OfKind ts
      → All (λ e. OfKind e × (named_in ts (table_name e) ≡ true)) es
      → (ds : List InfraObjectDiff) × (traverse (compared kind ts) es ≡ ok ds)
        × (update_infra ds ≡ (calls_for_each_kept ts es, ok tt))
  unfolding update_infra and_later
  update_infra-kept ts [] hs h = ([], refl, refl)
  update_infra-kept ts (e ∷ es) hs ((of_kind, there), h) =
      let (d, made, applied) = compared-kept ts e hs of_kind there in
      let (ds, rest, ran) = update_infra-kept ts es hs h in
      (d ∷ ds, rw (traverse, made, rest), rw (applied, ran))

  pub diff_kind-update :
      (ts es : List InfraTable)
      → All OfKind ts
      → All OfKind es
      → (ds : List InfraObjectDiff) × (diff_kind kind ts es ≡ ok ds)
        × (update_infra ds ≡ (calls_for ts es, ok tt))
  unfolding diff_kind tag_infra_proto_objects_for_keep_delete_add
  diff_kind-update ts es hs h =
      let added = map (created kind) (filter (λ e. not (named_in ts (table_name e))) es) in
      let removed = map (deleted kind) (filter (λ e. not (named_in es (table_name e))) ts) in
      let (ds, made, ran) =
        update_infra-kept ts (filter (λ e. named_in ts (table_name e)) es) hs
          (filter-All (λ e. named_in ts (table_name e)) OfKind es h) in
      (
        added ++ removed ++ ds,
        ap (λ r. r >>= λ kept. ok (added ++ removed ++ kept)) made,
        update_infra-append (added ++ removed) ds _ _
            (update_infra-append added removed _ _ (update_infra-created kind _)
              (update_infra-deleted kind _))
            ran,
      )
