-- ===== src/SqlRegistry/Metadata.antt =====
-- The project metadata of sdk/python/feast/infra/registry/sql.py: its methods return, and leave the other
-- tables alone.
use feast.Base.{
  ◌≡◌, refl, ◌∙◌, ℕ, suc, String, Option, none, some, List, [], ◌∷◌, ok, inl, inr, ◌⊎◌, string_eq,
}
use feast.SqlRegistry.Tables.{MetadataRow, Laws, same_metadata_key, has_metadata_key}
use feast.SqlRegistry.State.{Sql, SqlState, >>=-ok, pure, utcnow, uuid4}
use feast.SqlRegistry.Objects.{
  project_uuid, last_updated_timestamp, insert_metadata, first_metadata, update_metadata,
  last_updated_row, maybe_init_project_metadata, init_unless, write_last_updated,
  set_last_updated_metadata,
}

pub List-cases : {A : Type 0} (xs : List A) → (xs ≡ []) ⊎ ((x : A) × (ys : List A) × (xs ≡ x ∷ ys))
List-cases [] = inl refl
List-cases (x ∷ xs) = inr (x, xs, refl)

module _ {B : Type 0} (sql : Sql B) (laws : Laws same_metadata_key sql.metadata) where
  -- A row is inserted where the selection has found no row with its key.
  insert_metadata-ok :
      (row : MetadataRow) (s : SqlState sql)
      → sql.metadata.select (has_metadata_key row.metadata_key row.project_id) s.feast_metadata ≡ []
      → (c : sql.metadata.Contents) × (insert_metadata sql row s
          ≡ (ok tt, record s { feast_metadata = c }))
  unfolding insert_metadata
  insert_metadata-ok row s none_there =
      let (c, inserted, _) = laws.insert_new row s.feast_metadata (λ r there.
        laws.select_none (has_metadata_key row.metadata_key row.project_id) s.feast_metadata r
          none_there there) in
      (c, rw (insert_metadata, inserted) refl)

  first_metadata-none :
      (key project : String) (s : SqlState sql)
      → sql.metadata.select (has_metadata_key key project) s.feast_metadata ≡ []
      → first_metadata sql key project s ≡ (ok none, s)
  unfolding first_metadata
  first_metadata-none key project s missing = rw (first_metadata, missing) refl

  first_metadata-some :
      (key project : String) (s : SqlState sql) (r : MetadataRow) (rs : List MetadataRow)
      → sql.metadata.select (has_metadata_key key project) s.feast_metadata ≡ r ∷ rs
      → first_metadata sql key project s ≡ (ok (some r), s)
  unfolding first_metadata
  first_metadata-some key project s r rs there = rw (first_metadata, there) refl

  pub maybe_init_project_metadata-ok :
      (project : String) (s : SqlState sql)
      → (c : sql.metadata.Contents) × (draws : ℕ) × (maybe_init_project_metadata sql project s
          ≡ (ok tt, record s { feast_metadata = c; readings = suc s.readings; draws = draws }))
  unfolding maybe_init_project_metadata utcnow init_unless uuid4 pure
  maybe_init_project_metadata-ok project s =
      elim (List-cases
        (sql.metadata.select (has_metadata_key project_uuid project) s.feast_metadata)) [
          | inl missing ↦
              let (c, inserted) =
                insert_metadata-ok first_row (record later { draws = suc s.draws }) missing in
              (
                c,
                suc s.draws,
                found none (first_metadata-none project_uuid project later missing) ∙ inserted,
              )
          | inr (r, rs, there) ↦ (
            s.feast_metadata,
            s.draws,
            found (some r) (first_metadata-some project_uuid project later r rs there),
          )
        ]
    where
      first_row : MetadataRow
      first_row = record {
        project_id = project;
        metadata_key = project_uuid;
        metadata_value = sql.uuid s.draws;
        last_updated_timestamp = sql.timestamp (sql.clock s.readings);
      }

      later : SqlState sql
      later = record s { readings = suc s.readings }

      found :
          (row : Option MetadataRow)
          → first_metadata sql project_uuid project later ≡ (ok row, later)
          → maybe_init_project_metadata sql project s
            ≡ init_unless sql project (sql.clock s.readings) row later
      found row =
          >>=-ok (first_metadata sql project_uuid project)
            (init_unless sql project (sql.clock s.readings)) later

  pub set_last_updated_metadata-ok :
      (now : ℕ) (project : String) (s : SqlState sql)
      → (c : sql.metadata.Contents) × (set_last_updated_metadata sql now project s
          ≡ (ok tt, record s { feast_metadata = c }))
  unfolding set_last_updated_metadata write_last_updated update_metadata
  set_last_updated_metadata-ok now project s =
      elim (List-cases
        (sql.metadata.select (has_metadata_key last_updated_timestamp project) s.feast_metadata)) [
          | inl missing ↦
              let (c, inserted) = insert_metadata-ok (last_updated_row sql now project) s missing in
              (
                c,
                found none (first_metadata-none last_updated_timestamp project s missing)
                    ∙ inserted,
              )
          | inr (r, rs, there) ↦ (
            sql.metadata.update (has_metadata_key last_updated_timestamp project)
                (λ _. last_updated_row sql now project) s.feast_metadata,
            found (some r) (first_metadata-some last_updated_timestamp project s r rs there),
          )
        ]
    where
      found :
          (row : Option MetadataRow)
          → first_metadata sql last_updated_timestamp project s ≡ (ok row, s)
          → set_last_updated_metadata sql now project s ≡ write_last_updated sql now project row s
      found row =
          >>=-ok (first_metadata sql last_updated_timestamp project)
            (write_last_updated sql now project) s
