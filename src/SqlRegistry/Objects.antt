-- ===== src/SqlRegistry/Objects.antt =====
-- `_apply_object`, `_get_object`, `_delete_object`, `_list_objects`, and the project metadata that they keep,
-- of sdk/python/feast/infra/registry/sql.py.
use feast.Base.{
  ℕ, String, Bool, Option, none, some, List, [], ◌∷◌, Result, ok, err, Error, assertion_error,
  traverse, require, not, ◌==◌, string_eq, nat_eq,
}
use feast.SqlRegistry.Tables.{
  SqlTable, ObjectRow, MetadataRow, has_key, named, of_project, has_metadata_key,
}
use feast.SqlRegistry.State.{Sql, SqlAction, ◌>>=◌, ◌>>◌, pure, lift, utcnow, uuid4, put_table}

-- What the methods ask of a class of objects `O` and its messages `P`: the time of the last update, if the
-- class has it, the message and back, the time of creation, if the message has it, and the bytes.
pub record Class (B O P : Type 0) : Type 0 where
  pub with_last_updated : ℕ → O → O
  pub to_proto : O → Result P
  pub with_created : ℕ → P → P
  pub from_proto : P → Result O
  pub serialize_to_string : P → B
  pub from_string : B → Result P

-- `FeastMetadataKeys`
abbrev pub project_uuid : String
project_uuid = "project_uuid"

abbrev pub last_updated_timestamp : String
last_updated_timestamp = "last_updated_timestamp"

-- What the update of `_apply_object` sets in a row.
abbrev pub updated_row : {B : Type 0} → B → ℕ → ObjectRow B → ObjectRow B
updated_row bytes update_time r = record r { proto = bytes; last_updated_timestamp = update_time }

module _ {B : Type 0} (sql : Sql B) where
  -- `conn.execute(insert(feast_metadata).values(values))`
  unfoldable pub insert_metadata : MetadataRow → SqlAction sql (Unit {0})
  insert_metadata row s = elim (sql.metadata.insert row s.feast_metadata) [
    | ok c ↦ (ok tt, record s { feast_metadata = c })
    | err e ↦ (err e, s)
  ]

  -- `conn.execute(select(feast_metadata).where(...)).first()`
  unfoldable pub first_metadata : String → String → SqlAction sql (Option MetadataRow)
  first_metadata key project s =
      elim (sql.metadata.select (has_metadata_key key project) s.feast_metadata) [
        | [] ↦ (ok none, s)
        | r ∷ _ ↦ (ok (some r), s)
      ]

  -- The rest of `_maybe_init_project_metadata`, for the row found.
  unfoldable pub init_unless : String → ℕ → Option MetadataRow → SqlAction sql (Unit {0})
  unfolding pure ◌>>=◌ uuid4 insert_metadata
  init_unless project update_datetime (some r) = pure tt
  init_unless project update_datetime none = do
    new_project_uuid ← uuid4
    insert_metadata (record {
      project_id = project;
      metadata_key = project_uuid;
      metadata_value = new_project_uuid;
      last_updated_timestamp = sql.timestamp update_datetime;
    })

  -- `_maybe_init_project_metadata`
  unfoldable pub maybe_init_project_metadata : String → SqlAction sql (Unit {0})
  unfolding utcnow ◌>>=◌ first_metadata init_unless
  maybe_init_project_metadata project = do
    update_datetime ← utcnow
    row ← first_metadata project_uuid project
    init_unless project update_datetime row

  -- The values that `_set_last_updated_metadata` writes.
  abbrev pub last_updated_row : ℕ → String → MetadataRow
  last_updated_row last_updated project = record {
    project_id = project;
    metadata_key = last_updated_timestamp;
    metadata_value = sql.decimal (sql.timestamp last_updated);
    last_updated_timestamp = sql.timestamp last_updated;
  }

  -- `conn.execute(update(feast_metadata).where(...).values(values))`
  unfoldable pub update_metadata :
      (MetadataRow → Bool) → (MetadataRow → MetadataRow) → SqlAction sql (Unit {0})
  update_metadata p f s =
      (ok tt, record s { feast_metadata = sql.metadata.update p f s.feast_metadata })

  -- The rest of `_set_last_updated_metadata`, for the row found.
  unfoldable pub write_last_updated : ℕ → String → Option MetadataRow → SqlAction sql (Unit {0})
  unfolding insert_metadata update_metadata
  write_last_updated last_updated project none =
      insert_metadata (last_updated_row last_updated project)
  write_last_updated last_updated project (some r) =
      update_metadata (has_metadata_key last_updated_timestamp project)
        (λ _. last_updated_row last_updated project)

  -- `_set_last_updated_metadata`
  unfoldable pub set_last_updated_metadata : ℕ → String → SqlAction sql (Unit {0})
  unfolding ◌>>=◌ first_metadata write_last_updated
  set_last_updated_metadata last_updated project =
      first_metadata last_updated_timestamp project >>= write_last_updated last_updated project

  -- `_get_last_updated_metadata`, in whole seconds.
  unfoldable pub get_last_updated_metadata : String → SqlAction sql (Option ℕ)
  unfolding ◌>>=◌ first_metadata pure
  get_last_updated_metadata project = first_metadata last_updated_timestamp project >>= λ row.
      pure (elim row [ none ↦ none | some r ↦ some r.last_updated_timestamp ])

  -- `conn.execute(select(table).where(...)).first()`
  unfoldable pub first_object :
      SqlTable → (ObjectRow B → Bool) → SqlAction sql (Option (ObjectRow B))
  first_object table p s = elim (sql.objects.select p (s.tables table)) [
    | [] ↦ (ok none, s)
    | r ∷ _ ↦ (ok (some r), s)
  ]

  -- `conn.execute(update(table).where(...).values(values))`
  unfoldable pub update_objects :
      SqlTable → (ObjectRow B → Bool) → (ObjectRow B → ObjectRow B) → SqlAction sql (Unit {0})
  unfolding put_table
  update_objects table p f s = (ok tt, put_table table (sql.objects.update p f (s.tables table)) s)

  -- `conn.execute(insert(table).values(values))`
  unfoldable pub insert_object : SqlTable → ObjectRow B → SqlAction sql (Unit {0})
  unfolding put_table
  insert_object table r s = elim (sql.objects.insert r (s.tables table)) [
    | ok c ↦ (ok tt, put_table table c s)
    | err e ↦ (err e, s)
  ]

  module _ {O P : Type 0} (cls : Class B O P) where
    -- The statement of `_apply_object`, for the row found. The update is restricted to the name alone.
    unfoldable pub write_object :
        SqlTable → String → String → ℕ → P → Option (ObjectRow B) → SqlAction sql (Unit {0})
    unfolding update_objects insert_object
    write_object table project name update_datetime obj_proto (some r) =
        update_objects table (named name)
          (updated_row (cls.serialize_to_string obj_proto) (sql.timestamp update_datetime))
    write_object table project name update_datetime obj_proto none = insert_object table (record {
      name = name;
      project_id = project;
      last_updated_timestamp = sql.timestamp update_datetime;
      proto = cls.serialize_to_string (cls.with_created update_datetime obj_proto);
      user_metadata = none;
    })

    -- The body of the `with` of `_apply_object`, for the row found.
    unfoldable pub apply_to :
        SqlTable → String → String → O → ℕ → Option (ObjectRow B) → SqlAction sql (Unit {0})
    unfolding ◌>>=◌ lift write_object set_last_updated_metadata
    apply_to table project name obj update_datetime row = do
      obj_proto ← lift (cls.to_proto (cls.with_last_updated update_datetime obj))
      write_object table project name update_datetime obj_proto row
      set_last_updated_metadata update_datetime project

    -- `_apply_object` behind its assertion.
    unfoldable pub apply_named : SqlTable → String → String → O → SqlAction sql (Unit {0})
    unfolding ◌>>=◌ utcnow first_object apply_to
    apply_named table project name obj = do
      update_datetime ← utcnow
      row ← first_object table (has_key name project)
      apply_to table project name obj update_datetime row

    -- `_apply_object`, on the name that it takes from its argument or from the object.
    unfoldable pub apply_object : SqlTable → String → String → O → SqlAction sql (Unit {0})
    unfolding maybe_init_project_metadata ◌>>=◌ lift apply_named
    apply_object table project name obj =
        maybe_init_project_metadata project
        >> (lift (require (not (name == "")) assertion_error) >> apply_named table project name obj)

    -- A row read back.
    unfoldable pub read_row : ObjectRow B → Result O
    read_row r = elim (cls.from_string r.proto) [ ok p ↦ cls.from_proto p | err e ↦ err e ]

    -- The object of the row found.
    unfoldable pub read_found : Option (ObjectRow B) → SqlAction sql (Option O)
    unfolding ◌>>=◌ lift pure read_row
    read_found none = pure none
    read_found (some r) = lift (read_row r) >>= λ obj. pure (some obj)

    -- `_get_object`, without an exception for an object that is not found.
    unfoldable pub find_object : SqlTable → String → String → SqlAction sql (Option O)
    unfolding maybe_init_project_metadata ◌>>=◌ first_object read_found
    find_object table name project =
        maybe_init_project_metadata project
        >> (first_object table (has_key name project) >>= read_found)

    unfoldable pub or_raise : Error → Option O → SqlAction sql O
    unfolding lift pure
    or_raise e none = lift (err e)
    or_raise e (some obj) = pure obj

    -- `_get_object`, with one.
    unfoldable pub get_object :
        SqlTable → String → String → (String → String → Error) → SqlAction sql O
    unfolding find_object ◌>>=◌ or_raise
    get_object table name project not_found =
        find_object table name project >>= or_raise (not_found name project)

    -- `_list_objects`
    unfoldable pub list_objects : SqlTable → String → SqlAction sql (List O)
    unfolding maybe_init_project_metadata ◌>>=◌ read_row
    list_objects table project = maybe_init_project_metadata project >> λ s.
        (traverse read_row (sql.objects.select (of_project project) (s.tables table)), s)

  -- `conn.execute(delete(table).where(...))`
  unfoldable pub delete_objects : SqlTable → (ObjectRow B → Bool) → SqlAction sql ℕ
  unfolding put_table
  delete_objects table p s =
      let (rowcount, contents) = sql.objects.delete p (s.tables table) in
      (ok rowcount, put_table table contents s)

  -- `if rows.rowcount < 1 and not_found_exception: raise ...`
  unfoldable pub check_deleted :
      Option (String → String → Error) → String → String → ℕ → SqlAction sql (Unit {0})
  unfolding lift pure
  check_deleted none name project rowcount = pure tt
  check_deleted (some not_found) name project rowcount =
      lift (require (not (rowcount == 0)) (not_found name project))

  -- The end of `_delete_object`.
  unfoldable pub finish_deletion : String → ℕ → SqlAction sql ℕ
  unfolding ◌>>=◌ utcnow set_last_updated_metadata pure
  finish_deletion project rowcount = do
    now ← utcnow
    set_last_updated_metadata now project
    pure rowcount

  -- `_delete_object`
  unfoldable pub delete_object :
      SqlTable → String → String → Option (String → String → Error) → SqlAction sql ℕ
  unfolding ◌>>=◌ delete_objects check_deleted finish_deletion
  delete_object table name project not_found = do
    rowcount ← delete_objects table (has_key name project)
    check_deleted not_found name project rowcount
    finish_deletion project rowcount
