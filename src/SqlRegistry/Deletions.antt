-- ===== src/SqlRegistry/Deletions.antt =====
-- `_delete_object` of sdk/python/feast/infra/registry/sql.py, by the number of rows that it deletes.
use feast.Base.{
  ◌≡◌, refl, ap, ◌∙◌, ℕ, suc, String, true, false, some, ok, err, Error, arith, ◌==◌, nat_eq, not,
  require, string_eq,
}
use feast.SqlRegistry.Tables.{SqlTable, Laws, same_metadata_key, has_key}
use feast.SqlRegistry.State.{Sql, SqlState, ◌>>◌, >>=-ok, >>=-err, lift, pure, utcnow, put_table}
use feast.SqlRegistry.Objects.{
  delete_objects, check_deleted, finish_deletion, delete_object, set_last_updated_metadata,
}
use feast.SqlRegistry.Metadata.{set_last_updated_metadata-ok}

module _ {B : Type 0} (sql : Sql B) (table : SqlTable) (name project : String)
    (s : SqlState sql) where
  abbrev pub rowcount : ℕ
  rowcount = (sql.objects.delete (has_key name project) (s.tables table)).0

  -- The state after the statement.
  abbrev pub after : SqlState sql
  after = put_table table (sql.objects.delete (has_key name project) (s.tables table)).1 s

module _ {B : Type 0} (sql : Sql B) (metadata_laws : Laws same_metadata_key sql.metadata)
    (table : SqlTable) (name project : String) (not_found : String → String → Error)
    (s : SqlState sql) where
  abbrev count : ℕ
  count = rowcount sql table name project s

  abbrev state : SqlState sql
  state = after sql table name project s

  delete_object-deleted :
      delete_object sql table name project (some not_found) s
      ≡ (check_deleted sql (some not_found) name project count >> finish_deletion sql project count)
          state
  unfolding delete_object delete_objects
  delete_object-deleted = refl

  pub delete_object-missing :
      count ≡ 0
      → delete_object sql table name project (some not_found) s
        ≡ (err (not_found name project), state)
  unfolding check_deleted lift
  delete_object-missing nothing =
      delete_object-deleted
      ∙ >>=-err (check_deleted sql (some not_found) name project count)
          (λ _. finish_deletion sql project count) state
          (ap (λ b. (require (not b) (not_found name project), state)) is_zero)
    where
      is_zero : (count == 0) ≡ true
      is_zero = ground (arith, nothing)

  pub delete_object-ok :
      (n : ℕ)
      → count ≡ suc n
      → (c : sql.metadata.Contents) × (delete_object sql table name project (some not_found) s
          ≡ (ok count, record state { readings = suc s.readings; feast_metadata = c }))
  unfolding check_deleted lift finish_deletion utcnow pure put_table
  delete_object-ok n something =
      let later = record state { readings = suc s.readings } in
      let (c, stamped) =
        set_last_updated_metadata-ok sql metadata_laws (sql.clock s.readings) project later in
      (
        c,
        delete_object-deleted
            ∙ >>=-ok (check_deleted sql (some not_found) name project count)
                (λ _. finish_deletion sql project count) state
                (ap (λ b. (require (not b) (not_found name project), state)) not_zero)
            ∙ >>=-ok (set_last_updated_metadata sql (sql.clock s.readings) project)
                (λ _. pure count) later stamped,
      )
    where
      not_zero : (count == 0) ≡ false
      not_zero = ground (arith, something)
