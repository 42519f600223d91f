-- ===== src/FeatureStore/Online/Columns.antt =====
-- The columns that a feature view adds to a response of sdk/python/feast/feature_store.py: each entity is
-- read once, and each row has what the store answers for it.
use feast.Base.{◌≡◌, String, Bool, List, map, Result, ok, Eq}
use feast.Base.Dict.{Dict}
use feast.FeatureView.{FeatureView}
use feast.FeatureStore.Entities.{transpose, zip_row}
use feast.FeatureStore.Online.{FeatureVector, ReadRow, status_of, value_of, timestamp_of}

-- The store answers for each entity on its own, in the order of the entities.
module _ {V : Type 0} ⦃e : Eq (List V)⦄ (lt : List V → List V → Bool) (null : V)
    (online_read : List (Dict String V) → List String → Result (List (ReadRow V)))
    (read : List String → Dict String V → ReadRow V)
    (answers : (ks : List (Dict String V)) (fs : List String)
      → online_read ks fs ≡ ok (map (read fs) ks))
    (requested : List String) (table_entity_values : Dict String (List V)) where
  abbrev keys : List String
  keys = map (λ (p : String × List V). p.0) table_entity_values

  abbrev columns : List (List V)
  columns = map (λ (p : String × List V). p.1) table_entity_values

  -- What the store answers for a row.
  abbrev answer : List V → ReadRow V
  answer row = read requested (zip_row keys row)

  -- The column of a feature, row by row.
  abbrev pub column_of : String → FeatureVector V
  column_of feature = record {
    values = map (λ row. value_of null (answer row).1 feature) (transpose columns);
    statuses = map (λ row. status_of (answer row).1 feature) (transpose columns);
    event_timestamps = map (λ row. timestamp_of (answer row).0) (transpose columns);
  }
