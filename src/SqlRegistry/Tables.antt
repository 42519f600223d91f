-- ===== src/SqlRegistry/Tables.antt =====
-- The tables of sdk/python/feast/infra/registry/sql.py, and what the registry asks of the database library:
-- the statements `select`, `update`, `insert` and `delete` on a table, as a record of operations, and
-- their documented behaviour, as a record of laws.
use feast.Base.{
  ℕ, suc, String, Bool, true, false, ◌≡◌, ◌↔◌, ◌⊎◌, Option, List, [], ◌∷◌, Result, ok, ◌==◌, nat_eq,
  ◌&&◌, string_eq,
}

-- The tables of objects; each has a name and a project for its key.
pub data SqlTable : Type 0 where
  entities data_sources feature_views request_feature_views : SqlTable
  stream_feature_views on_demand_feature_views feature_services : SqlTable
  saved_datasets validation_references managed_infra : SqlTable

abbrev table_number : SqlTable → ℕ
table_number entities = 0
table_number data_sources = 1
table_number feature_views = 2
table_number request_feature_views = 3
table_number stream_feature_views = 4
table_number on_demand_feature_views = 5
table_number feature_services = 6
table_number saved_datasets = 7
table_number validation_references = 8
table_number managed_infra = 9

unfoldable pub same_table : SqlTable → SqlTable → Bool
same_table t u = table_number t == table_number u

-- A row of a table of objects. `B` are the texts of bytes.
pub record ObjectRow (B : Type 0) : Type 0 where
  pub name : String
  pub project_id : String
  pub last_updated_timestamp : ℕ
  pub proto : B
  pub user_metadata : Option B

-- A row of `feast_metadata`.
pub record MetadataRow : Type 0 where
  pub project_id : String
  pub metadata_key : String
  pub metadata_value : String
  pub last_updated_timestamp : ℕ

-- The conditions of the statements.
abbrev pub has_key : {B : Type 0} → String → String → ObjectRow B → Bool
has_key name project r = r.name == name && r.project_id == project

abbrev pub named : {B : Type 0} → String → ObjectRow B → Bool
named name r = r.name == name

abbrev pub of_project : {B : Type 0} → String → ObjectRow B → Bool
of_project project r = r.project_id == project

abbrev pub has_metadata_key : String → String → MetadataRow → Bool
has_metadata_key key project r = r.metadata_key == key && r.project_id == project

-- The primary keys.
abbrev pub same_key : {B : Type 0} → ObjectRow B → ObjectRow B → Bool
same_key r s = has_key s.name s.project_id r

abbrev pub same_metadata_key : MetadataRow → MetadataRow → Bool
same_metadata_key r s = has_metadata_key s.metadata_key s.project_id r

-- The statements of the database library on a table, by the rows that fulfil a condition. A deletion also
-- counts the rows.
pub record Table (Row : Type 0) : Type 1 where
  pub Contents : Type 0
  pub select : (Row → Bool) → Contents → List Row
  pub update : (Row → Bool) → (Row → Row) → Contents → Contents
  pub insert : Row → Contents → Result Contents
  pub delete : (Row → Bool) → Contents → ℕ × Contents

-- What the statements do to the rows that a table has. The order of the rows is left open.
pub record Laws {Row : Type 0} (same : Row → Row → Bool) (table : Table Row) : Type 1 where
  pub Has : table.Contents → Row → Type 0
  pub select_none :
      (p : Row → Bool) (c : table.Contents) (r : Row)
      → table.select p c ≡ []
      → Has c r
      → p r ≡ false
  pub select_first :
      (p : Row → Bool) (c : table.Contents) (r : Row) (rs : List Row)
      → table.select p c ≡ r ∷ rs
      → Has c r × (p r ≡ true)
  pub update_rows :
      (p : Row → Bool) (f : Row → Row) (c : table.Contents) (r : Row)
      → Has (table.update p f c) r
        ↔ ((Has c r × (p r ≡ false)) ⊎ ((s : Row) × Has c s × (p s ≡ true) × (r ≡ f s)))
  pub insert_new :
      (r : Row) (c : table.Contents)
      → ((s : Row) → Has c s → same s r ≡ false)
      → (d : table.Contents) × (table.insert r c ≡ ok d)
        × ((s : Row) → Has d s ↔ (Has c s ⊎ (s ≡ r)))
  pub delete_rows :
      (p : Row → Bool) (c : table.Contents) (r : Row)
      → Has (table.delete p c).1 r ↔ (Has c r × (p r ≡ false))
  pub delete_none :
      (p : Row → Bool) (c : table.Contents)
      → ((r : Row) → Has c r → p r ≡ false)
      → (table.delete p c).0 ≡ 0
  pub delete_some :
      (p : Row → Bool) (c : table.Contents) (r : Row)
      → Has c r
      → p r ≡ true
      → (n : ℕ) × ((table.delete p c).0 ≡ suc n)
