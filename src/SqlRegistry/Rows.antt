-- ===== src/SqlRegistry/Rows.antt =====
-- What the statements of sdk/python/feast/infra/registry/sql.py do to the map from names and projects to
-- entries that the rows of a table stand for.
use feast.Base.{
  ◌≡◌, subst, ◌↔◌, refl, sym, ap, ◌∙◌, ℕ, String, Bool, true, false, none, some, List, [], ◌∷◌, ok,
  arith, inl, inr, ◌⊎◌, ◌==◌, string_eq, Option-cases, Bool-cases, ==-refl,
}
use mathlib.Core.Option.{none-ne-some, some-injective}
use feast.SqlRegistry.Tables.{ObjectRow, Table, Laws, same_key, has_key, named}
use feast.SqlRegistry.Objects.{updated_row}
use feast.SqlRegistry.Metadata.{List-cases}
use feast.SqlRegistry.Calls.{Entry, Entries, written, without, overwritten}

abbrev pub entry_of : {B : Type 0} → ObjectRow B → Entry B
entry_of r = record {
  last_updated_timestamp = r.last_updated_timestamp;
  proto = r.proto;
  user_metadata = r.user_metadata;
}

-- The row of an entry.
abbrev pub row_of : {B : Type 0} → String → String → Entry B → ObjectRow B
row_of name project e = record {
  name = name;
  project_id = project;
  last_updated_timestamp = e.last_updated_timestamp;
  proto = e.proto;
  user_metadata = e.user_metadata;
}

module _ {B : Type 0} (table : Table (ObjectRow B)) (laws : Laws same_key table) where
  clash : {b : Bool} → b ≡ true → b ≡ false → ⊥
  clash yes_it_is no_it_is = cc

  pub has_key-row_of :
      (name project : String) (e : Entry B) → has_key name project (row_of name project e) ≡ true
  has_key-row_of name project e = ground (arith, ==-refl name, ==-refl project)

  -- The rows of a table are those of a map.
  abbrev pub Represents : table.Contents → Entries B → Type 0
  Represents c m = (r : ObjectRow B) → laws.Has c r ↔ (m r.name r.project_id ≡ some (entry_of r))

  key-eq :
      (name project : String) (r : ObjectRow B)
      → has_key name project r ≡ true
      → (r.name ≡ name) × (r.project_id ≡ project)
  key-eq name project r h = ground (arith, h)

  row-at :
      (c : table.Contents) (m : Entries B) (name project : String)
      → Represents c m
      → (r : ObjectRow B) → laws.Has c r
      → has_key name project r ≡ true
      → m name project ≡ some (entry_of r)
  row-at c m name project represents r there key =
      let (same_name, same_project) = key-eq name project r key in
      ap (λ n. m n project) (sym same_name)
      ∙ ap (m r.name) (sym same_project)
      ∙ (represents r).0 there

  same-row :
      (row r : ObjectRow B)
      → has_key row.name row.project_id r ≡ true
      → entry_of r ≡ entry_of row
      → r ≡ row
  same-row row r key same =
      let (same_name, same_project) = key-eq row.name row.project_id r key in
      ap (λ n. row_of n r.project_id (entry_of r)) same_name
      ∙ ap (λ q. row_of row.name q (entry_of r)) same_project
      ∙ ap (row_of row.name row.project_id) same

  -- The first row of a selection by key is what the map has there.
  pub select-Represents :
      (c : table.Contents) (m : Entries B) (name project : String)
      → Represents c m
      → ((table.select (has_key name project) c ≡ []) × (m name project ≡ none))
        ⊎ ((r : ObjectRow B) × (rs : List (ObjectRow B)) × (table.select (has_key name project) c
              ≡ r ∷ rs)
            × (m name project ≡ some (entry_of r)))
  select-Represents c m name project represents =
      elim (List-cases (table.select (has_key name project) c)) [
        | inl missing ↦ elim (Option-cases (m name project)) [
          | inl none_there ↦ inl (missing, none_there)
          | inr (e, there) ↦ absurd (
              clash (has_key-row_of name project e) (
                laws.select_none (has_key name project) c (row_of name project e) missing
                  ((represents (row_of name project e)).1 there)))
        ]
        | inr (r, rs, found) ↦
            let (there, selected) = laws.select_first (has_key name project) c r rs found in
            inr (r, rs, found, row-at c m name project represents r there selected)
      ]

  module _ (name : String) (bytes : B) (update_time : ℕ) (m : Entries B) (n q : String) where
    overwritten-other : (n == name) ≡ false → overwritten name bytes update_time m n q ≡ m n q
    unfolding overwritten
    overwritten-other other = rw other refl

    overwritten-none :
        (n == name) ≡ true → m n q ≡ none → overwritten name bytes update_time m n q ≡ none
    unfolding overwritten
    overwritten-none same missing = rw (same, missing) refl

    pub overwritten-some :
        (e : Entry B)
        → (n == name) ≡ true
        → m n q ≡ some e
        → overwritten name bytes update_time m n q
          ≡ some (record e { proto = bytes; last_updated_timestamp = update_time })
    unfolding overwritten
    overwritten-some e same there = rw (same, there) refl

  -- The update by name overwrites the entries of that name.
  module _ (c : table.Contents) (m : Entries B) (represents : Represents c m) (name : String)
      (bytes : B) (update_time : ℕ) where
    updated_rows :
        (r : ObjectRow B)
        → laws.Has (table.update (named name) (updated_row bytes update_time) c) r ↔ (
            (laws.Has c r × ((r.name == name) ≡ false))
            ⊎ ((s : ObjectRow B) × laws.Has c s
                × ((s.name == name) ≡ true)
                × (r ≡ updated_row bytes update_time s)))
    updated_rows r = laws.update_rows (named name) (updated_row bytes update_time) c r

    row-overwritten :
        (r s : ObjectRow B)
        → (s.name == name) ≡ true
        → r ≡ updated_row bytes update_time s
        → m s.name s.project_id ≡ some (entry_of s)
        → overwritten name bytes update_time m r.name r.project_id ≡ some (entry_of r)
    unfolding overwritten
    row-overwritten r s same updated there =
        subst
          (λ (q : ObjectRow B).
            overwritten name bytes update_time m q.name q.project_id ≡ some (entry_of q))
          (sym updated)
          (overwritten-some name bytes update_time m s.name s.project_id (entry_of s) same there)

    overwritten-row :
        (r : ObjectRow B)
        → (r.name == name) ≡ true
        → overwritten name bytes update_time m r.name r.project_id ≡ some (entry_of r)
        → (s : ObjectRow B) × (m s.name s.project_id ≡ some (entry_of s))
          × ((s.name == name) ≡ true)
          × (r ≡ updated_row bytes update_time s)
    unfolding overwritten
    overwritten-row r same h = elim (Option-cases (m r.name r.project_id)) [
      | inl missing ↦ absurd (
          none-ne-some (entry_of r)
            (sym (overwritten-none name bytes update_time m r.name r.project_id same missing) ∙ h))
      | inr (e, there) ↦ (
        row_of r.name r.project_id e,
        there,
        same,
        ap (row_of r.name r.project_id) (
            some-injective _ _
              (sym h ∙ overwritten-some name bytes update_time m r.name r.project_id e same there)),
      )
    ]

    pub update-Represents :
        Represents
          (table.update (named name) (updated_row bytes update_time) c)
          (overwritten name bytes update_time m)
    unfolding overwritten
    update-Represents r = (
      (λ there. elim ((updated_rows r).0 there) [
        | inl (old, other) ↦
            overwritten-other name bytes update_time m r.name r.project_id other
            ∙ (represents r).0 old
        | inr (s, old, same, updated) ↦ row-overwritten r s same updated ((represents s).0 old)
      ]),
      λ there. elim (Bool-cases (r.name == name)) [
        | inl same ↦
            let (s, old, named_so, updated) = overwritten-row r same there in
            (updated_rows r).1 (inr (s, (represents s).1 old, named_so, updated))
        | inr other ↦ (updated_rows r).1 (
            inl (
              (represents r).1 (
                  sym (overwritten-other name bytes update_time m r.name r.project_id other)
                  ∙ there),
              other,
            ))
      ],
    )

  module _ (name project : String) (e : Entry B) (m : Entries B) (r : ObjectRow B) where
    written-at :
        has_key name project r ≡ true → written name project e m r.name r.project_id ≡ some e
    unfolding written
    written-at key = rw key refl

    written-other :
        has_key name project r ≡ false
        → written name project e m r.name r.project_id ≡ m r.name r.project_id
    unfolding written
    written-other key = rw key refl

  module _ (name project : String) (m : Entries B) (r : ObjectRow B) where
    without-at : has_key name project r ≡ true → without name project m r.name r.project_id ≡ none
    unfolding without
    without-at key = rw key refl

    without-other :
        has_key name project r ≡ false
        → without name project m r.name r.project_id ≡ m r.name r.project_id
    unfolding without
    without-other key = rw key refl

  -- Where the map has nothing for a key, no row has it.
  pub key-absent :
      (c : table.Contents) (m : Entries B) (name project : String)
      → Represents c m
      → m name project ≡ none
      → (r : ObjectRow B) → laws.Has c r
      → has_key name project r ≡ false
  key-absent c m name project represents missing r there =
      elim (Bool-cases (has_key name project r)) [
        | inr other ↦ other
        | inl key ↦ absurd (
            none-ne-some (entry_of r)
              (sym missing ∙ row-at c m name project represents r there key))
      ]

  -- An insertion writes the entry of its row.
  pub insert-Represents :
      (c : table.Contents) (m : Entries B) (row : ObjectRow B)
      → Represents c m
      → m row.name row.project_id ≡ none
      → (d : table.Contents) × (table.insert row c ≡ ok d)
        × Represents d (written row.name row.project_id (entry_of row) m)
  insert-Represents c m row represents missing =
      let absent = key-absent c m row.name row.project_id represents missing in
      let (d, inserted, rows) = laws.insert_new row c absent in
      (
        d,
        inserted,
        λ r. (
          (λ there. elim ((rows r).0 there) [
            | inl old ↦
                written-other row.name row.project_id (entry_of row) m r (absent r old)
                ∙ (represents r).0 old
            | inr new ↦
                subst
                  (λ (q : ObjectRow B).
                    written row.name row.project_id (entry_of row) m q.name q.project_id
                    ≡ some (entry_of q))
                  (sym new)
                  (written-at row.name row.project_id (entry_of row) m row
                    (has_key-row_of row.name row.project_id (entry_of row)))
          ]),
          λ there. elim (Bool-cases (has_key row.name row.project_id r)) [
            | inl key ↦ (rows r).1 (
                inr (
                  same-row row r key (
                    some-injective _ _
                      (sym there ∙ written-at row.name row.project_id (entry_of row) m r key))))
            | inr other ↦ (rows r).1 (
                inl (
                  (represents r).1
                    (sym (written-other row.name row.project_id (entry_of row) m r other) ∙ there)))
          ],
        ),
      )

  -- A deletion by key deletes an entry.
  pub delete-Represents :
      (c : table.Contents) (m : Entries B) (name project : String)
      → Represents c m
      → Represents (table.delete (has_key name project) c).1 (without name project m)
  delete-Represents c m name project represents r = (
    (λ there.
        let (old, other) = (laws.delete_rows (has_key name project) c r).0 there in
        without-other name project m r other ∙ (represents r).0 old),
    λ there. elim (Bool-cases (has_key name project r)) [
      | inl key ↦ absurd (none-ne-some (entry_of r) (sym (without-at name project m r key) ∙ there))
      | inr other ↦
          (laws.delete_rows (has_key name project) c r).1
            ((represents r).1 (sym (without-other name project m r other) ∙ there), other)
    ],
  )
