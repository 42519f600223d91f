-- ===== src/SqlRegistry/Reads.antt =====
-- `_get_object` of sdk/python/feast/infra/registry/sql.py, for the row that it finds.
use feast.Base.{
  ◌≡◌, refl, sym, ap, ◌∙◌, String, Option, none, some, Result, ok, err, Error, inl, inr, nat_eq,
  string_eq, Result-cases,
}
use feast.SqlRegistry.Tables.{SqlTable, ObjectRow, has_key}
use feast.SqlRegistry.State.{Sql, SqlState, ◌>>=◌, >>=-ok, >>=-err, lift, pure}
use feast.SqlRegistry.Objects.{
  Class, first_object, read_found, find_object, or_raise, get_object, maybe_init_project_metadata,
  read_row,
}
use feast.SqlRegistry.Calls.{get, Answer, got, perform, read_entry}
use feast.SqlRegistry.Rows.{entry_of}

module _ {B O P : Type 0} (sql : Sql B) (table : SqlTable) (cls : Class B O P)
    (not_found : String → String → Error) (name project : String) where
  -- What `get` answers for the row found.
  unfoldable pub answer : Option (ObjectRow B) → Result (Answer O)
  answer none = err (not_found name project)
  answer (some r) = elim (read_row sql cls r) [ err e ↦ err e | ok obj ↦ ok (got obj) ]

  find_object-found :
      (row : Option (ObjectRow B)) (s t : SqlState sql)
      → maybe_init_project_metadata sql project s ≡ (ok tt, t)
      → first_object sql table (has_key name project) t ≡ (ok row, t)
      → find_object sql cls table name project s ≡ read_found sql cls row t
  unfolding find_object
  find_object-found row s t initialised found =
      >>=-ok (maybe_init_project_metadata sql project)
        (λ _. first_object sql table (has_key name project) >>= read_found sql cls) s initialised
      ∙ >>=-ok (first_object sql table (has_key name project)) (read_found sql cls) t found

  read_found-none : (t : SqlState sql) → read_found sql cls none t ≡ (ok none, t)
  unfolding read_found pure
  read_found-none t = refl

  read_found-ok :
      (r : ObjectRow B) (obj : O) (t : SqlState sql)
      → read_row sql cls r ≡ ok obj
      → read_found sql cls (some r) t ≡ (ok (some obj), t)
  unfolding read_found lift pure
  read_found-ok r obj t read =
      >>=-ok (lift (read_row sql cls r)) (λ obj. pure (some obj)) t (ap (λ q. (q, t)) read)

  read_found-err :
      (r : ObjectRow B) (e : Error) (t : SqlState sql)
      → read_row sql cls r ≡ err e
      → read_found sql cls (some r) t ≡ (err e, t)
  unfolding read_found lift pure
  read_found-err r e t refused =
      >>=-err (lift (read_row sql cls r)) (λ obj. pure (some obj)) t (ap (λ q. (q, t)) refused)

  pub perform-get :
      (row : Option (ObjectRow B)) (s t : SqlState sql)
      → maybe_init_project_metadata sql project s ≡ (ok tt, t)
      → first_object sql table (has_key name project) t ≡ (ok row, t)
      → perform sql cls table not_found (get name project) s ≡ (answer row, t)
  unfolding perform get_object or_raise lift pure answer
  perform-get none s t initialised found =
      >>=-err (get_object sql cls table name project not_found) (λ obj. pure (got obj)) s
        (>>=-ok (find_object sql cls table name project) (or_raise sql cls (not_found name project))
          s (find_object-found none s t initialised found ∙ read_found-none t))
  perform-get (some r) s t initialised found = elim (Result-cases (read_row sql cls r)) [
    | inl (e, refused) ↦
        >>=-err (get_object sql cls table name project not_found) (λ obj. pure (got obj)) s
          (>>=-err (find_object sql cls table name project)
            (or_raise sql cls (not_found name project)) s
            (find_object-found (some r) s t initialised found ∙ read_found-err r e t refused))
        ∙ ap (λ q. (elim q [ err e ↦ err e | ok obj ↦ ok (got obj) ], t)) (sym refused)
    | inr (obj, read) ↦
        >>=-ok (get_object sql cls table name project not_found) (λ obj. pure (got obj)) s
          (>>=-ok (find_object sql cls table name project)
            (or_raise sql cls (not_found name project)) s
            (find_object-found (some r) s t initialised found ∙ read_found-ok r obj t read))
        ∙ ap (λ q. (elim q [ err e ↦ err e | ok obj ↦ ok (got obj) ], t)) (sym read)
  ]

  -- The model reads an entry as the registry reads its row.
  pub answer-read_entry : (r : ObjectRow B) → read_entry cls (entry_of r) ≡ answer (some r)
  unfolding answer read_entry read_row
  answer-read_entry r = go (cls.from_string r.proto)
    where
      and_then : P → Result (Answer O)
      and_then p = elim (cls.from_proto p) [ err e ↦ err e | ok obj ↦ ok (got obj) ]

      read : Result P → Result O
      read q = elim q [ ok p ↦ cls.from_proto p | err e ↦ err e ]

      go :
          (q : Result P)
          → elim q [ err e ↦ err e | ok p ↦ and_then p ]
            ≡ elim (read q) [ err e ↦ err e | ok obj ↦ ok (got obj) ]
      go (ok p) = refl
      go (err e) = refl
