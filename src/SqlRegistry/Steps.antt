-- ===== src/SqlRegistry/Steps.antt =====
-- Each call of a method of `SqlRegistry` (sdk/python/feast/infra/registry/sql.py) agrees with the map that its
-- table stands for.
use feast.Base.{
  ◌↔◌, ◌≡◌, refl, sym, ap, subst, ◌∙◌, ℕ, suc, String, true, false, none, some, Result, ok, err,
  Error, arith, inl, inr, ◌==◌, nat_eq, assertion_error, string_eq, Bool-cases, Option-cases,
  Result-cases,
}
use feast.SqlRegistry.Tables.{SqlTable, ObjectRow, Laws, same_key, same_metadata_key, has_key}
use feast.SqlRegistry.State.{Sql, SqlState, >>=-ok, >>=-err, pure, put_table}
use feast.SqlRegistry.Objects.{Class, apply_object, delete_object}
use feast.SqlRegistry.Metadata.{maybe_init_project_metadata-ok}
use feast.SqlRegistry.Calls.{
  Call, apply, get, delete, Answer, applied, deleted, perform, Entry, Entries, Model,
  entries_applied, without, model_step,
}
use feast.SqlRegistry.Rows.{
  entry_of, row_of, has_key-row_of, Represents, select-Represents, delete-Represents, key-absent,
}
use feast.SqlRegistry.Agreement.{Agrees, agree, Untouched-put_table}
use feast.SqlRegistry.Reads.{answer-read_entry, answer, perform-get}
use feast.SqlRegistry.Deletions.{after, delete_object-missing, delete_object-ok}
use feast.SqlRegistry.Writes.{
  tables-put_table, first_object-none, first_object-some, apply_named-found,
  apply_object-initialised, apply_object-unnamed, apply_to-ok, apply_to-err,
  write_object-Represents,
}

module _ {B O P : Type 0} (sql : Sql B) (laws : Laws same_key sql.objects)
    (metadata_laws : Laws same_metadata_key sql.metadata) (table : SqlTable) (cls : Class B O P)
    (not_found : String → String → Error) where
  abbrev pub step : Call O → Model B → Result (Answer O) × Model B
  step = model_step sql.clock sql.timestamp cls not_found

  -- The model of a state.
  abbrev pub at : Entries B → SqlState sql → Model B
  at m s = record { entries = m; readings = s.readings }

  module _ (name project : String) (m : Entries B) (s : SqlState sql)
      (represents : Represents sql.objects laws (s.tables table) m) where
    get-none :
        m name project ≡ none
        → step (get name project) (at m s) ≡ (
          answer sql table cls not_found name project none,
          record (at m s) { readings = suc s.readings },
        )
    unfolding model_step answer
    get-none missing = rw (model_step, missing) refl

    get-some :
        (r : ObjectRow B)
        → m name project ≡ some (entry_of r)
        → step (get name project) (at m s) ≡ (
          answer sql table cls not_found name project (some r),
          record (at m s) { readings = suc s.readings },
        )
    unfolding model_step answer
    get-some r there =
        rw (model_step, there)
          (ap (λ a. (a, record (at m s) { readings = suc s.readings }))
            (answer-read_entry sql table cls not_found name project r))

    pub get-Agrees :
        Agrees sql laws metadata_laws table s
          (perform sql cls table not_found (get name project) s)
          (step (get name project) (at m s))
    get-Agrees =
        let (c, draws, initialised) = maybe_init_project_metadata-ok sql metadata_laws project s in
        let t = record s { feast_metadata = c; readings = suc s.readings; draws = draws } in
        elim (select-Represents sql.objects laws (s.tables table) m name project represents) [
          | inl (missing, none_there) ↦
              agree sql laws metadata_laws table s _ _ _ t _
                (perform-get sql table cls not_found name project none s t initialised
                  (first_object-none sql laws metadata_laws table (has_key name project) t missing))
                (get-none none_there) (record { rows = represents; clock = refl }) (λ u other. refl)
          | inr (r, rs, found, there) ↦
              agree sql laws metadata_laws table s _ _ _ t _
                (perform-get sql table cls not_found name project (some r) s t initialised (
                  first_object-some sql laws metadata_laws table (has_key name project) t r rs
                    found))
                (get-some r there) (record { rows = represents; clock = refl }) (λ u other. refl)
        ]

    delete-none :
        m name project ≡ none
        → step (delete name project) (at m s) ≡ (err (not_found name project), at m s)
    unfolding model_step
    delete-none missing = rw (model_step, missing) refl

    delete-some :
        (e : Entry B)
        → m name project ≡ some e
        → step (delete name project) (at m s)
          ≡ (ok deleted, record { entries = without name project m; readings = suc s.readings })
    unfolding model_step
    delete-some e there = rw (model_step, there) refl

    without-absent : m name project ≡ none → (n q : String) → without name project m n q ≡ m n q
    unfolding without
    without-absent missing n q = ground (arith, missing)

    after-Represents :
        Represents sql.objects laws
          ((after sql table name project s).tables table)
          (without name project m)
    after-Represents =
        subst (λ c. Represents sql.objects laws c (without name project m))
          (sym (tables-put_table sql laws metadata_laws table _ s))
          (delete-Represents sql.objects laws (s.tables table) m name project represents)

    perform-delete-err :
        (e : Error) (t : SqlState sql)
        → delete_object sql table name project (some not_found) s ≡ (err e, t)
        → perform sql cls table not_found (delete name project) s ≡ (err e, t)
    unfolding perform
    perform-delete-err e t raised =
        >>=-err (delete_object sql table name project (some not_found)) (λ _. pure deleted) s raised

    perform-delete-ok :
        (n : ℕ) (t : SqlState sql)
        → delete_object sql table name project (some not_found) s ≡ (ok n, t)
        → perform sql cls table not_found (delete name project) s ≡ (ok deleted, t)
    unfolding perform pure
    perform-delete-ok n t returned =
        >>=-ok (delete_object sql table name project (some not_found)) (λ _. pure deleted) s
          returned

    pub delete-Agrees :
        Agrees sql laws metadata_laws table s
          (perform sql cls table not_found (delete name project) s)
          (step (delete name project) (at m s))
    unfolding put_table
    delete-Agrees = elim (Option-cases (m name project)) [
      | inl missing ↦
          agree sql laws metadata_laws table s _ _ _ (after sql table name project s) _
            (perform-delete-err _ _ (
              delete_object-missing sql metadata_laws table name project not_found s (
                laws.delete_none (has_key name project) (s.tables table) (
                  key-absent sql.objects laws (s.tables table) m name project represents missing))))
            (delete-none missing)
            (record {
              rows = λ r.
                  subst
                    (λ o.
                      laws.Has ((after sql table name project s).tables table) r
                      ↔ (o ≡ some (entry_of r)))
                    (without-absent missing r.name r.project_id) (after-Represents r);
              clock = refl;
            })
            (Untouched-put_table sql laws metadata_laws table _ s)
      | inr (e, there) ↦
          let (n, counted) =
            laws.delete_some (has_key name project) (s.tables table) (row_of name project e)
              ((represents (row_of name project e)).1 there)
              (has_key-row_of sql.objects laws name project e) in
          let (c, returned) =
            delete_object-ok sql metadata_laws table name project not_found s n counted in
          agree sql laws metadata_laws table s _ _ _
            (record (after sql table name project s) {
              readings = suc s.readings;
              feast_metadata = c;
            })
            _ (perform-delete-ok _ _ returned) (delete-some e there)
            (record { rows = after-Represents; clock = refl })
            (Untouched-put_table sql laws metadata_laws table _ s)
    ]

    module _ (obj : O) where
      -- The time of the application.
      abbrev now : ℕ
      now = sql.clock (suc s.readings)

      apply-unnamed :
          (name == "") ≡ true
          → step (apply name project obj) (at m s)
            ≡ (err assertion_error, record (at m s) { readings = suc s.readings })
      unfolding model_step
      apply-unnamed missing = rw (model_step, missing) refl

      apply-err :
          (e : Error)
          → (name == "") ≡ false
          → cls.to_proto (cls.with_last_updated now obj) ≡ err e
          → step (apply name project obj) (at m s)
            ≡ (err e, record (at m s) { readings = suc (suc s.readings) })
      unfolding model_step
      apply-err e there refused = rw (model_step, there, refused) refl

      apply-ok :
          (p : P)
          → (name == "") ≡ false
          → cls.to_proto (cls.with_last_updated now obj) ≡ ok p
          → step (apply name project obj) (at m s) ≡ (
            ok applied,
            record {
              entries = entries_applied cls sql.timestamp name project now p m;
              readings = suc (suc s.readings);
            },
          )
      unfolding model_step
      apply-ok p there written_out = rw (model_step, there, written_out) refl

      perform-apply-err :
          (e : Error) (t : SqlState sql)
          → apply_object sql cls table project name obj s ≡ (err e, t)
          → perform sql cls table not_found (apply name project obj) s ≡ (err e, t)
      unfolding perform
      perform-apply-err e t raised =
          >>=-err (apply_object sql cls table project name obj) (λ _. pure applied) s raised

      perform-apply-ok :
          (t : SqlState sql)
          → apply_object sql cls table project name obj s ≡ (ok tt, t)
          → perform sql cls table not_found (apply name project obj) s ≡ (ok applied, t)
      unfolding perform pure
      perform-apply-ok t returned =
          >>=-ok (apply_object sql cls table project name obj) (λ _. pure applied) s returned

      pub apply-Agrees :
          Agrees sql laws metadata_laws table s
            (perform sql cls table not_found (apply name project obj) s)
            (step (apply name project obj) (at m s))
      unfolding put_table
      apply-Agrees =
          let (c, draws, initialised) =
            maybe_init_project_metadata-ok sql metadata_laws project s in
          let t = record s { feast_metadata = c; readings = suc s.readings; draws = draws } in
          let u = record t { readings = suc t.readings } in
          let (row, found, writes) =
            write_object-Represents sql laws metadata_laws cls table project name now m u
              represents in
          let located = λ (there : (name == "") ≡ false).
            apply_object-initialised sql laws metadata_laws cls table project name obj s t there
              initialised
            ∙ apply_named-found sql laws metadata_laws cls table project name obj row t found in
          elim (Bool-cases (name == "")) [
            | inl missing ↦
                agree sql laws metadata_laws table s _ _ _ t _
                  (perform-apply-err _ _ (
                    apply_object-unnamed sql laws metadata_laws cls table project name obj s t
                      missing initialised))
                  (apply-unnamed missing) (record { rows = represents; clock = refl })
                  (λ v other. refl)
            | inr there ↦ elim (Result-cases (cls.to_proto (cls.with_last_updated now obj))) [
              | inl (e, refused) ↦
                  agree sql laws metadata_laws table s _ _ _ u _
                    (perform-apply-err _ _ (
                      located there
                      ∙ apply_to-err sql laws metadata_laws cls table project name now obj e row u
                          refused))
                    (apply-err e there refused) (record { rows = represents; clock = refl })
                    (λ v other. refl)
              | inr (p, written_out) ↦
                  let (d, wrote, holds) = writes p in
                  let (f, did) =
                    apply_to-ok sql laws metadata_laws cls table project name now obj p row u
                      (put_table table d u) written_out wrote in
                  agree sql laws metadata_laws table s _ _ _
                    (record (put_table table d u) { feast_metadata = f }) _
                    (perform-apply-ok _ (located there ∙ did)) (apply-ok p there written_out)
                    (record {
                      rows =
                          subst
                            (λ k.
                              Represents sql.objects laws k
                                (entries_applied cls sql.timestamp name project now p m))
                            (sym (tables-put_table sql laws metadata_laws table d u)) holds;
                      clock = refl;
                    })
                    (Untouched-put_table sql laws metadata_laws table d u)
            ]
          ]
