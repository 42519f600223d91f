-- ===== src/SqlRegistry/Writes.antt =====
-- `_apply_object` of sdk/python/feast/infra/registry/sql.py, statement by statement, on the map that the
-- table stands for.
use feast.Base.{
  ◌≡◌, refl, sym, ap, subst, ◌∙◌, ℕ, suc, String, Bool, true, false, Option, none, some, List, [],
  ◌∷◌, ok, err, Error, inl, inr, ◌==◌, nat_eq, ==-refl, assertion_error, not, require, string_eq,
}
use feast.SqlRegistry.Tables.{
  SqlTable, ObjectRow, Laws, same_table, same_key, same_metadata_key, has_key, named,
}
use feast.SqlRegistry.State.{Sql, SqlState, ◌>>◌, >>=-ok, >>=-err, lift, utcnow, put_table}
use feast.SqlRegistry.Objects.{
  Class, first_object, write_object, apply_to, apply_named, apply_object, update_objects,
  insert_object, set_last_updated_metadata, maybe_init_project_metadata, updated_row,
}
use feast.SqlRegistry.Metadata.{set_last_updated_metadata-ok}
use feast.SqlRegistry.Calls.{Entry, Entries, entries_applied, written, overwritten}
use feast.SqlRegistry.Rows.{
  entry_of, Represents, select-Represents, update-Represents, insert-Represents,
}

pub same_table_refl : (t : SqlTable) → same_table t t ≡ true
unfolding same_table
same_table_refl t = ==-refl {A = ℕ} _

module _ {B : Type 0} (sql : Sql B) (laws : Laws same_key sql.objects)
    (metadata_laws : Laws same_metadata_key sql.metadata) where
  pub tables-put_table :
      (table : SqlTable) (c : sql.objects.Contents) (s : SqlState sql)
      → (put_table table c s).tables table ≡ c
  unfolding put_table
  tables-put_table table c s = rw (same_table_refl table) refl

  pub first_object-none :
      (table : SqlTable) (p : ObjectRow B → Bool) (s : SqlState sql)
      → sql.objects.select p (s.tables table) ≡ []
      → first_object sql table p s ≡ (ok none, s)
  unfolding first_object
  first_object-none table p s missing = rw (first_object, missing) refl

  pub first_object-some :
      (table : SqlTable) (p : ObjectRow B → Bool) (s : SqlState sql) (r : ObjectRow B)
      (rs : List (ObjectRow B))
      → sql.objects.select p (s.tables table) ≡ r ∷ rs
      → first_object sql table p s ≡ (ok (some r), s)
  unfolding first_object
  first_object-some table p s r rs there = rw (first_object, there) refl

  module _ {O P : Type 0} (cls : Class B O P) (table : SqlTable) (project name : String) where
    abbrev new_row : ℕ → P → ObjectRow B
    new_row now p = record {
      name = name;
      project_id = project;
      last_updated_timestamp = sql.timestamp now;
      proto = cls.serialize_to_string (cls.with_created now p);
      user_metadata = none;
    }

    entries_applied-none :
        (now : ℕ) (p : P) (m : Entries B)
        → m name project ≡ none
        → entries_applied cls sql.timestamp name project now p m
          ≡ written name project (entry_of (new_row now p)) m
    unfolding entries_applied
    entries_applied-none now p m missing = rw (entries_applied, missing) refl

    pub entries_applied-some :
        (now : ℕ) (p : P) (m : Entries B) (e : Entry B)
        → m name project ≡ some e
        → entries_applied cls sql.timestamp name project now p m
          ≡ overwritten name (cls.serialize_to_string p) (sql.timestamp now) m
    unfolding entries_applied
    entries_applied-some now p m e there = rw (entries_applied, there) refl

    insert_object-ok :
        (row : ObjectRow B) (c : sql.objects.Contents) (s : SqlState sql)
        → sql.objects.insert row (s.tables table) ≡ ok c
        → insert_object sql table row s ≡ (ok tt, put_table table c s)
    unfolding insert_object
    insert_object-ok row c s inserted = rw (insert_object, inserted) refl

    -- The row that `_apply_object` finds, and what its statement then does to the map.
    pub write_object-Represents :
        (now : ℕ) (m : Entries B) (s : SqlState sql)
        → Represents sql.objects laws (s.tables table) m
        → (row : Option (ObjectRow B)) × (first_object sql table (has_key name project) s
            ≡ (ok row, s))
          × ((p : P)
              → (c : sql.objects.Contents) × (write_object sql cls table project name now p row s
                  ≡ (ok tt, put_table table c s))
                × Represents sql.objects laws c
                    (entries_applied cls sql.timestamp name project now p m))
    unfolding write_object insert_object update_objects entries_applied
    write_object-Represents now m s represents =
        elim (select-Represents sql.objects laws (s.tables table) m name project represents) [
          | inl (missing, none_there) ↦ (
            none,
            first_object-none table (has_key name project) s missing,
            λ p.
                let (c, inserted, holds) =
                  insert-Represents sql.objects laws (s.tables table) m (new_row now p) represents
                    none_there in
                (
                  c,
                  insert_object-ok (new_row now p) c s inserted,
                  subst (Represents sql.objects laws c)
                      (sym (entries_applied-none now p m none_there)) holds,
                ),
          )
          | inr (r, rs, found, there) ↦ (
            some r,
            first_object-some table (has_key name project) s r rs found,
            λ p. (
              sql.objects.update (named name)
                  (updated_row (cls.serialize_to_string p) (sql.timestamp now)) (s.tables table),
              refl,
              subst (Represents sql.objects laws _)
                  (sym (entries_applied-some now p m (entry_of r) there))
                  (update-Represents sql.objects laws (s.tables table) m represents name
                    (cls.serialize_to_string p) (sql.timestamp now)),
            ),
          )
        ]

    -- The rest of `_apply_object`, once the row has been looked for.
    pub apply_to-ok :
        (now : ℕ) (obj : O) (p : P) (row : Option (ObjectRow B)) (s t : SqlState sql)
        → cls.to_proto (cls.with_last_updated now obj) ≡ ok p
        → write_object sql cls table project name now p row s ≡ (ok tt, t)
        → (c : sql.metadata.Contents) × (apply_to sql cls table project name obj now row s
            ≡ (ok tt, record t { feast_metadata = c }))
    unfolding apply_to lift
    apply_to-ok now obj p row s t written_out wrote =
        let (c, stamped) = set_last_updated_metadata-ok sql metadata_laws now project t in
        (
          c,
          >>=-ok (lift (cls.to_proto (cls.with_last_updated now obj)))
                (λ q.
                  write_object sql cls table project name now q row
                  >> set_last_updated_metadata sql now project)
                s (ap (λ r. (r, s)) written_out)
              ∙ >>=-ok (write_object sql cls table project name now p row)
                  (λ _. set_last_updated_metadata sql now project) s wrote
              ∙ stamped,
        )

    pub apply_to-err :
        (now : ℕ) (obj : O) (e : Error) (row : Option (ObjectRow B)) (s : SqlState sql)
        → cls.to_proto (cls.with_last_updated now obj) ≡ err e
        → apply_to sql cls table project name obj now row s ≡ (err e, s)
    unfolding apply_to lift
    apply_to-err now obj e row s refused =
        >>=-err (lift (cls.to_proto (cls.with_last_updated now obj)))
          (λ q.
            write_object sql cls table project name now q row
            >> set_last_updated_metadata sql now project)
          s (ap (λ r. (r, s)) refused)

    -- The state after the clock has been read.
    abbrev pub read_once : SqlState sql → SqlState sql
    read_once s = record s { readings = suc s.readings }

    pub apply_named-found :
        (obj : O) (row : Option (ObjectRow B)) (s : SqlState sql)
        → first_object sql table (has_key name project) (read_once s) ≡ (ok row, read_once s)
        → apply_named sql cls table project name obj s
          ≡ apply_to sql cls table project name obj (sql.clock s.readings) row (read_once s)
    unfolding apply_named utcnow
    apply_named-found obj row s =
        >>=-ok (first_object sql table (has_key name project))
          (apply_to sql cls table project name obj (sql.clock s.readings)) (read_once s)

    pub apply_object-initialised :
        (obj : O) (s t : SqlState sql)
        → (name == "") ≡ false
        → maybe_init_project_metadata sql project s ≡ (ok tt, t)
        → apply_object sql cls table project name obj s
          ≡ apply_named sql cls table project name obj t
    unfolding apply_object lift
    apply_object-initialised obj s t there initialised =
        >>=-ok (maybe_init_project_metadata sql project)
          (λ _.
            lift (require (not (name == "")) assertion_error)
            >> apply_named sql cls table project name obj)
          s initialised
        ∙ >>=-ok (lift (require (not (name == "")) assertion_error))
            (λ _. apply_named sql cls table project name obj) t
            (ap (λ b. (require (not b) assertion_error, t)) there)

    -- An object without a name.
    pub apply_object-unnamed :
        (obj : O) (s t : SqlState sql)
        → (name == "") ≡ true
        → maybe_init_project_metadata sql project s ≡ (ok tt, t)
        → apply_object sql cls table project name obj s ≡ (err assertion_error, t)
    unfolding apply_object lift
    apply_object-unnamed obj s t missing initialised =
        >>=-ok (maybe_init_project_metadata sql project)
          (λ _.
            lift (require (not (name == "")) assertion_error)
            >> apply_named sql cls table project name obj)
          s initialised
        ∙ >>=-err (lift (require (not (name == "")) assertion_error))
            (λ _. apply_named sql cls table project name obj) t
            (ap (λ b. (require (not b) assertion_error, t)) missing)
