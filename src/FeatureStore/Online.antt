-- ===== src/FeatureStore/Online.antt =====
-- What is read from the online store and how it enters the response: `_get_table_entity_values`,
-- `_read_from_online_store`, `_populate_response_from_feature_data`, `_populate_result_rows_from_columnar`
-- and `_drop_unneeded_columns` of sdk/python/feast/feature_store.py. `V` are the messages of values.
pub mod Columns
pub mod Drop
use feast.Base.{
  ℕ, zero, suc, String, Bool, true, false, not, Option, none, some, List, [], ◌∷◌, ◌++◌, map,
  Result, ok, err, ◌>>=◌, value_error, index_error, type_error, key_error, Eq, ◌==◌, string_eq, any,
  filter, traverse, if◌then◌else◌,
}
use feast.Base.Text.{str_concat}
use feast.Base.Dict.{Dict, lookup, insert}
use mathlib.Core.List.{reverse}
use feast.FeatureView.{FeatureView, contains}
use feast.Projection.{name_to_use}
use feast.FeatureStore.Entities.{transpose, get_unique_entities, apply_list_mapping, enumerate_from}

-- `FieldStatus` of ServingService.proto
pub data FieldStatus : Type 0 where
  invalid present null_value not_found outside_max_age : FieldStatus

-- `GetOnlineFeaturesResponse.FeatureVector`. A `Timestamp` is a number of microseconds, 0 if not set.
pub record FeatureVector (V : Type 0) : Type 0 where
  pub values : List V
  pub statuses : List FieldStatus
  pub event_timestamps : List ℕ

-- `GetOnlineFeaturesResponse`, with the names of its metadata.
pub record Response (V : Type 0) : Type 0 where
  pub feature_names : List String
  pub results : List (FeatureVector V)

-- What the provider's `online_read` answers for an entity: the time of the row, and its features.
abbrev pub ReadRow : Type 0 → Type 0
ReadRow V = Option ℕ × Option (Dict String V)

-- A row as `_read_from_online_store` returns it.
pub record RowProtos (V : Type 0) : Type 0 where
  pub timestamps : List ℕ
  pub statuses : List FieldStatus
  pub values : List V

-- `d.get(k, default)`
unfoldable pub get_or : Dict String String → String → String → String
unfolding lookup
get_or d k default = elim (lookup k d) [ none ↦ default | some v ↦ v ]

-- `{v: k for k, v in d.items()}`
unfoldable pub inverted : Dict String String → Dict String String → Dict String String
unfolding insert
inverted [] acc = acc
inverted ((k, v) ∷ d) acc = inverted d (insert v k acc)

-- `Timestamp()`, set if there is a time
unfoldable pub timestamp_of : Option ℕ → ℕ
timestamp_of none = 0
timestamp_of (some t) = t

module _ {V : Type 0} where
  -- The dict comprehension at the end of `_get_table_entity_values`.
  unfoldable pub subset_columns :
      (String → String)
      → List String
      → Dict String (List V)
      → Dict String (List V)
      → Dict String (List V)
  unfolding insert contains
  subset_columns rename table_join_keys [] acc = acc
  subset_columns rename table_join_keys ((k, v) ∷ d) acc =
      subset_columns rename table_join_keys d
        (if contains table_join_keys (rename k) then insert (rename k) v acc else acc)

  -- `_get_table_entity_values`: a missing entity name is a `KeyError`.
  unfoldable pub get_table_entity_values :
      FeatureView → Dict String String → Dict String (List V) → Result (Dict String (List V))
  unfolding lookup subset_columns get_or inverted
  get_table_entity_values table entity_name_to_join_key_map join_key_proto_values =
      traverse
        (λ name. elim (lookup name entity_name_to_join_key_map) [
          | none ↦ err (key_error name)
          | some k ↦ ok k
        ])
        table.entities
      >>= λ table_join_keys. ok (
          subset_columns (λ k. get_or (inverted table.projection.join_key_map []) k k)
            table_join_keys join_key_proto_values [])

  unfoldable pub status_of : Option (Dict String V) → String → FieldStatus
  unfolding lookup
  status_of none feature_name = not_found
  status_of (some feature_data) feature_name = elim (lookup feature_name feature_data) [
    | none ↦ not_found
    | some v ↦ present
  ]

  unfoldable pub value_of : V → Option (Dict String V) → String → V
  unfolding lookup
  value_of null none feature_name = null
  value_of null (some feature_data) feature_name = elim (lookup feature_name feature_data) [
    | none ↦ null
    | some v ↦ v
  ]

  -- The body of the loop of `_read_from_online_store`.
  unfoldable pub row_protos : V → List String → ReadRow V → RowProtos V
  unfolding status_of value_of timestamp_of
  row_protos null requested_features (row_ts, feature_data) = record {
    timestamps = map (λ _. timestamp_of row_ts) requested_features;
    statuses = map (status_of feature_data) requested_features;
    values = map (value_of null feature_data) requested_features;
  }

  -- `_read_from_online_store`, by what the provider answers for the rows.
  unfoldable pub read_from_online_store :
      V
      → (List (Dict String V) → List String → Result (List (ReadRow V)))
      → List (Dict String V)
      → List String
      → Result (List (RowProtos V))
  unfolding row_protos
  read_from_online_store null online_read entity_rows requested_features =
      online_read entity_rows requested_features >>= λ read_rows.
      ok (map (row_protos null requested_features) read_rows)

-- A message's repeated field takes no `None`.
unfoldable pub complete : {A : Type 0} → List (Option A) → Result (List A)
complete [] = ok []
complete (none ∷ os) = err type_error
complete (some a ∷ os) = complete os >>= λ rest. ok (a ∷ rest)

unfoldable pub mapped_column : {A : Type 0} → List A → List (List ℕ) → Result (List A)
unfolding apply_list_mapping complete
mapped_column column indexes = apply_list_mapping column indexes >>= complete

module _ {V : Type 0} where
  -- The loop of `_populate_response_from_feature_data` over the features.
  unfoldable pub feature_vectors :
      List (List ℕ)
      → List (List FieldStatus)
      → List (List V)
      → List (List ℕ)
      → Result (List (FeatureVector V))
  unfolding mapped_column
  feature_vectors (t ∷ ts) (s ∷ ss) (v ∷ vs) indexes = do
    values ← mapped_column v indexes
    statuses ← mapped_column s indexes
    timestamps ← mapped_column t indexes
    rest ← feature_vectors ts ss vs indexes
    ok (record { values = values; statuses = statuses; event_timestamps = timestamps } ∷ rest)
  feature_vectors ts ss vs indexes = ok []

  -- `timestamps, statuses, values = zip(*feature_data)`, and the loop.
  unfoldable pub populated : List (RowProtos V) → List (List ℕ) → Result (List (FeatureVector V))
  unfolding feature_vectors transpose
  populated [] indexes = err (value_error "not enough values to unpack (expected 3, got 0)")
  populated (r ∷ rs) indexes =
      feature_vectors (transpose (map (λ (q : RowProtos V). q.timestamps) (r ∷ rs)))
        (transpose (map (λ (q : RowProtos V). q.statuses) (r ∷ rs)))
        (transpose (map (λ (q : RowProtos V). q.values) (r ∷ rs))) indexes

  -- `_populate_response_from_feature_data`
  unfoldable pub populate_response_from_feature_data :
      List (RowProtos V)
      → List (List ℕ)
      → Response V
      → Bool
      → List String
      → FeatureView
      → Result (Response V)
  unfolding populated name_to_use
  populate_response_from_feature_data feature_data indexes response full_feature_names requested
        table =
      let refs =
        map
          (λ feature_name.
            if full_feature_names
            then str_concat (name_to_use table.projection) (str_concat "__" feature_name)
            else feature_name)
          requested in
      populated feature_data indexes >>= λ vectors. ok (record {
        feature_names = response.feature_names ++ refs;
        results = response.results ++ vectors;
      })

  -- `_populate_result_rows_from_columnar`
  unfoldable pub populate_result_rows_from_columnar : Response V → Dict String (List V) → Response V
  populate_result_rows_from_columnar response [] = response
  populate_result_rows_from_columnar response ((feature_name, feature_values) ∷ rest) =
      populate_result_rows_from_columnar
        (record {
          feature_names = response.feature_names ++ feature_name ∷ [];
          results =
              response.results
              ++ record {
                values = feature_values;
                statuses = map (λ _. present) feature_values;
                event_timestamps = map (λ _. 0) feature_values;
              }
                ∷ [];
        })
        rest

-- The body of the loop of `_get_online_features` over the feature views: the distinct entities, their
-- features from the store, and the response.
module _ {V : Type 0} ⦃e : Eq (List V)⦄ (lt : List V → List V → Bool) (null : V)
    (online_read : List (Dict String V) → List String → Result (List (ReadRow V))) where
  unfoldable pub read_columns :
      Dict String (List V) → List String → FeatureView → Bool → Response V → Result (Response V)
  unfolding get_unique_entities read_from_online_store populate_response_from_feature_data
  read_columns table_entity_values requested table full_feature_names response =
      get_unique_entities lt table_entity_values >>= λ unique.
      read_from_online_store null online_read unique.0 requested >>= λ feature_data.
      populate_response_from_feature_data feature_data unique.1 response full_feature_names
        requested table

-- `del xs[idx]`
unfoldable pub delete_at : {A : Type 0} → List A → ℕ → Result (List A)
delete_at [] i = err index_error
delete_at (x ∷ xs) zero = ok xs
delete_at (x ∷ xs) (suc i) = delete_at xs i >>= λ rest. ok (x ∷ rest)

-- `[idx for idx, val in enumerate(names) if val not in requested]`
unfoldable pub unneeded : List String → List (ℕ × String) → List ℕ
unfolding contains
unneeded requested [] = []
unneeded requested ((idx, val) ∷ rest) =
    if contains requested val then unneeded requested rest else idx ∷ unneeded requested rest

module _ {V : Type 0} where
  -- `del feature_names[idx]`, and then `del results[idx]`
  unfoldable pub delete_column : Response V → ℕ → Result (Response V)
  unfolding delete_at
  delete_column response idx = delete_at response.feature_names idx >>= λ names.
      delete_at response.results idx >>= λ results.
      ok (record { feature_names = names; results = results })

  unfoldable pub delete_columns : List ℕ → Response V → Result (Response V)
  unfolding delete_column
  delete_columns [] response = ok response
  delete_columns (idx ∷ rest) response = delete_column response idx >>= delete_columns rest

  -- `_drop_unneeded_columns`
  unfoldable pub drop_unneeded_columns : Response V → List String → Result (Response V)
  unfolding delete_columns unneeded enumerate_from
  drop_unneeded_columns response requested_result_row_names =
      delete_columns
        (reverse (unneeded requested_result_row_names (enumerate_from 0 response.feature_names)))
        response
