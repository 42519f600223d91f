-- ===== src/SqlRegistry/Refinement.antt =====
-- `SqlRegistry` of sdk/python/feast/infra/registry/sql.py refines the map that its tables stand for: what
-- sequences of calls of its methods answer.
use feast.Base.{
  if◌then◌else◌, ◌≡◌, refl, ap, subst, ◌∙◌, ℕ, suc, String, false, some, List, [], ◌∷◌, ok, err,
  Error, inl, inr, ◌==◌, nat_eq, ==-refl, string_eq, Bool-cases,
}
use feast.SqlRegistry.Tables.{SqlTable, Laws, same_table, same_key, same_metadata_key}
use feast.SqlRegistry.State.{Sql, SqlState}
use feast.SqlRegistry.Objects.{Class}
use feast.SqlRegistry.Calls.{
  Call, apply, get, delete, applied, got, perform, perform_all, Entry, Entries, Model,
  entries_applied, read_entry, model_step, model_all,
}
use feast.SqlRegistry.Rows.{overwritten-some, Represents}
use feast.SqlRegistry.Agreement.{Refines, Agrees, Untouched}
use feast.SqlRegistry.Writes.{entries_applied-some}
use feast.SqlRegistry.Steps.{get-Agrees, delete-Agrees, apply-Agrees}

module _ {B O P : Type 0} (sql : Sql B) (laws : Laws same_key sql.objects)
    (metadata_laws : Laws same_metadata_key sql.metadata) (table : SqlTable) (cls : Class B O P)
    (not_found : String → String → Error) where
  step-Agrees :
      (c : Call O) (m : Entries B) (s : SqlState sql)
      → Represents sql.objects laws (s.tables table) m
      → Agrees sql laws metadata_laws table s (perform sql cls table not_found c s) (
          model_step sql.clock sql.timestamp cls not_found c
            (record { entries = m; readings = s.readings }))
  step-Agrees (apply name project obj) m s represents =
      apply-Agrees sql laws metadata_laws table cls not_found name project m s represents obj
  step-Agrees (get name project) m s represents =
      get-Agrees sql laws metadata_laws table cls not_found name project m s represents
  step-Agrees (delete name project) m s represents =
      delete-Agrees sql laws metadata_laws table cls not_found name project m s represents

  perform-Agrees :
      (c : Call O) (m : Model B) (s : SqlState sql)
      → Refines sql laws metadata_laws table s m
      → Agrees sql laws metadata_laws table s
          (perform sql cls table not_found c s)
          (model_step sql.clock sql.timestamp cls not_found c m)
  perform-Agrees c m s refines =
      subst
        (λ k. Agrees sql laws metadata_laws table s (perform sql cls table not_found c s) (
          model_step sql.clock sql.timestamp cls not_found c
            (record { entries = m.entries; readings = k })))
        refines.clock (step-Agrees c m.entries s refines.rows)

  perform_all-Agrees :
      (calls : List (Call O)) (m : Model B) (s : SqlState sql)
      → Refines sql laws metadata_laws table s m
      → let did = perform_all sql cls table not_found calls s in
        let says = model_all sql.clock sql.timestamp cls not_found calls m in
        (did.0 ≡ says.0)
        × Refines sql laws metadata_laws table did.1 says.1
        × Untouched sql laws metadata_laws table s did.1
  unfolding perform_all model_all
  perform_all-Agrees [] m s refines = (refl, refines, λ u other. refl)
  perform_all-Agrees (c ∷ cs) m s refines =
      let first = perform-Agrees c m s refines in
      let (answers, refined, untouched) =
        perform_all-Agrees cs (model_step sql.clock sql.timestamp cls not_found c m).1
          (perform sql cls table not_found c s).1 first.refines in
      (
        ap (◌∷◌ (perform sql cls table not_found c s).0) answers
            ∙ ap
                (λ a.
                  a
                  ∷ (model_all sql.clock sql.timestamp cls not_found cs
                      (model_step sql.clock sql.timestamp cls not_found c m).1).0)
                first.answers,
        refined,
        λ u other. untouched u other ∙ first.untouched u other,
      )

  -- Where the database library keeps its laws and a table stands for a map from names and projects to
  -- entries, every sequence of applications, lookups and deletions of objects answers, call by call, values
  -- and exceptions, what the same calls answer on the map; the table stands for the resulting map again, and
  -- no other table of objects has changed.
  pub perform_all-model_all :
      (calls : List (Call O)) (m : Model B) (s : SqlState sql)
      → Refines sql laws metadata_laws table s m
      → let did = perform_all sql cls table not_found calls s in
        let says = model_all sql.clock sql.timestamp cls not_found calls m in
        (did.0 ≡ says.0)
        × Refines sql laws metadata_laws table did.1 says.1
        × ((u : SqlTable)
            → did.1.tables u ≡ (if same_table u table then did.1.tables u else s.tables u))
  perform_all-model_all calls m s refines =
      let (answers, refined, untouched) = perform_all-Agrees calls m s refines in
      (answers, refined, λ u. kept u _ (untouched u))
    where
      kept :
          (u : SqlTable) (c : sql.objects.Contents)
          → (same_table u table ≡ false → c ≡ s.tables u)
          → c ≡ (if same_table u table then c else s.tables u)
      kept u c h = elim (Bool-cases (same_table u table)) [
        | inl same ↦ rw same refl
        | inr other ↦ rw other (h other)
      ]

  module _ (name project other : String) (obj : O) (p : P) (e f : Entry B) (m : Model B)
      (s : SqlState sql) where
    abbrev now : ℕ
    now = sql.clock (suc m.readings)

    entry-other_project :
        m.entries name project ≡ some e
        → m.entries name other ≡ some f
        → entries_applied cls sql.timestamp name project now p m.entries name other
          ≡ some (record f {
            proto = cls.serialize_to_string p;
            last_updated_timestamp = sql.timestamp now;
          })
    entry-other_project own others =
        ap (λ k. k name other)
          (entries_applied-some sql laws metadata_laws cls table project name now p m.entries e own)
        ∙ overwritten-some sql.objects laws name (cls.serialize_to_string p) (sql.timestamp now)
            m.entries name other f (==-refl name) others

    model-other_project :
        cls.from_string (cls.serialize_to_string p) ≡ ok p
        → (name == "") ≡ false
        → cls.to_proto (cls.with_last_updated now obj) ≡ ok p
        → m.entries name project ≡ some e
        → m.entries name other ≡ some f
        → (model_all sql.clock sql.timestamp cls not_found
            (apply name project obj ∷ get name other ∷ [])
            m).0
          ≡ ok applied ∷ elim (cls.from_proto p) [ err x ↦ err x | ok o ↦ ok (got o) ] ∷ []
    unfolding model_all model_step read_entry
    model-other_project parsed there written_out own others =
        rw
          (
            model_all,
            model_step,
            there,
            written_out,
            entry-other_project own others,
            read_entry,
            parsed,
          )
          refl

    -- Where an object of some name stands in two projects, its application in the one overwrites it in the
    -- other too: a lookup in the other project answers the object just applied, as it is read back from its
    -- message.
    pub apply_object-other_project :
        Refines sql laws metadata_laws table s m
        → cls.from_string (cls.serialize_to_string p) ≡ ok p
        → (name == "") ≡ false
        → cls.to_proto (cls.with_last_updated now obj) ≡ ok p
        → m.entries name project ≡ some e
        → m.entries name other ≡ some f
        → (perform_all sql cls table not_found (apply name project obj ∷ get name other ∷ []) s).0
          ≡ ok applied ∷ elim (cls.from_proto p) [ err x ↦ err x | ok o ↦ ok (got o) ] ∷ []
    apply_object-other_project refines parsed there written_out own others =
        (perform_all-model_all (apply name project obj ∷ get name other ∷ []) m s refines).0
        ∙ model-other_project parsed there written_out own others
