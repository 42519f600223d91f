-- ===== src/SqlRegistry/Calls.antt =====
-- Calls of the methods of `SqlRegistry` on the objects of one table, and the same calls on the map from names
-- and projects to entries that the table stands for.
use feast.Base.{
  ℕ, suc, String, Option, none, some, List, [], ◌∷◌, Result, ok, err, Error, assertion_error, ◌==◌,
  string_eq, ◌&&◌, if◌then◌else◌,
}
use feast.SqlRegistry.Tables.{SqlTable}
use feast.SqlRegistry.State.{Sql, SqlState, SqlAction, ◌>>=◌, ◌>>◌, pure}
use feast.SqlRegistry.Objects.{Class, apply_object, get_object, delete_object}

-- The calls, with the object's name and its project, and what they answer.
pub data Call (O : Type 0) : Type 0 where
  apply : String → String → O → Call O
  get : String → String → Call O
  delete : String → String → Call O

pub data Answer (O : Type 0) : Type 0 where
  applied : Answer O
  got : O → Answer O
  deleted : Answer O

module _ {B O P : Type 0} (sql : Sql B) (cls : Class B O P) (table : SqlTable)
    (not_found : String → String → Error) where
  unfoldable pub perform : Call O → SqlAction sql (Answer O)
  unfolding ◌>>=◌ pure apply_object get_object delete_object
  perform (apply name project obj) = do apply_object sql cls table project name obj; pure applied
  perform (get name project) = do
    obj ← get_object sql cls table name project not_found
    pure (got obj)
  perform (delete name project) = do
    delete_object sql table name project (some not_found)
    pure deleted

  -- A client that goes on after an exception.
  unfoldable pub perform_all :
      List (Call O) → SqlState sql → List (Result (Answer O)) × SqlState sql
  unfolding perform
  perform_all [] s = ([], s)
  perform_all (c ∷ cs) s = let (r, t) = perform c s in let (rs, u) = perform_all cs t in (r ∷ rs, u)

-- A row without its key.
pub record Entry (B : Type 0) : Type 0 where
  pub last_updated_timestamp : ℕ
  pub proto : B
  pub user_metadata : Option B

-- The entries by name and project.
abbrev pub Entries : Type 0 → Type 0
Entries B = String → String → Option (Entry B)

module _ {B : Type 0} where
  -- An entry written under a name and a project.
  unfoldable pub written : String → String → Entry B → Entries B → Entries B
  written name project e m n q = if n == name && q == project then some e else m n q

  unfoldable pub without : String → String → Entries B → Entries B
  without name project m n q = if n == name && q == project then none else m n q

  -- New bytes for a name, in all projects that have it.
  unfoldable pub overwritten : String → B → ℕ → Entries B → Entries B
  overwritten name bytes update_time m n q =
      let e = m n q in
      if n == name
      then elim e [
        | none ↦ none
        | some e ↦ some (record e { proto = bytes; last_updated_timestamp = update_time })
      ]
      else e

-- The map, and the number of readings of the clock.
pub record Model (B : Type 0) : Type 0 where
  pub entries : Entries B
  pub readings : ℕ

module _ {B O P : Type 0} (cls : Class B O P) where
  -- The entries after an object has been applied at a time.
  unfoldable pub entries_applied : (ℕ → ℕ) → String → String → ℕ → P → Entries B → Entries B
  unfolding written overwritten
  entries_applied timestamp name project now p m = elim (m name project) [
    | none ↦
        written name project
          (record {
            last_updated_timestamp = timestamp now;
            proto = cls.serialize_to_string (cls.with_created now p);
            user_metadata = none;
          })
          m
    | some _ ↦ overwritten name (cls.serialize_to_string p) (timestamp now) m
  ]

  unfoldable pub read_entry : Entry B → Result (Answer O)
  read_entry e = elim (cls.from_string e.proto) [
    | err x ↦ err x
    | ok p ↦ elim (cls.from_proto p) [ err x ↦ err x | ok obj ↦ ok (got obj) ]
  ]

module _ {B O P : Type 0} (clock timestamp : ℕ → ℕ) (cls : Class B O P)
    (not_found : String → String → Error) where
  -- What a call answers and does to the map.
  unfoldable pub model_step : Call O → Model B → Result (Answer O) × Model B
  unfolding entries_applied read_entry without
  model_step (apply name project obj) m =
      let now = clock (suc m.readings) in
      if name == ""
      then (err assertion_error, record m { readings = suc m.readings })
      else elim (cls.to_proto (cls.with_last_updated now obj)) [
        | err e ↦ (err e, record m { readings = suc (suc m.readings) })
        | ok p ↦ (
          ok applied,
          record {
            entries = entries_applied cls timestamp name project now p m.entries;
            readings = suc (suc m.readings);
          },
        )
      ]
  model_step (get name project) m =
      let n = record m { readings = suc m.readings } in
      elim (m.entries name project) [
        | none ↦ (err (not_found name project), n)
        | some e ↦ (read_entry cls e, n)
      ]
  model_step (delete name project) m = elim (m.entries name project) [
    | none ↦ (err (not_found name project), m)
    | some e ↦
        (ok deleted, record { entries = without name project m.entries; readings = suc m.readings })
  ]

  unfoldable pub model_all : List (Call O) → Model B → List (Result (Answer O)) × Model B
  unfolding model_step
  model_all [] m = ([], m)
  model_all (c ∷ cs) m = let (r, n) = model_step c m in let (rs, o) = model_all cs n in (r ∷ rs, o)
