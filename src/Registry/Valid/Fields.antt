-- ===== src/Registry/Valid/Fields.antt =====
-- The repeated fields of the registry's message, and what the registry's loops over them
-- (sdk/python/feast/infra/registry/registry.py) keep of the invariant.
use feast.Base.{
  ℕ, String, Bool, true, false, ◌≡◌, refl, ap, Option, none, some, List, ◌∷◌, [], ◌++◌, Result, ok,
  err, find_first, if◌then◌else◌,
}
use feast.Proto.{Proto, matches}
use feast.Proto.Distinct.{Distinct, upserted-Distinct, delete_each-Distinct, delete_first-Distinct}
use feast.Registry.State.{RegistryProto}
use feast.Registry.Writes.{
  Repeated, replace, replace_each, remove, entities, feature_services, saved_datasets,
  validation_references,
}
use feast.Registry.FeatureViews.{
  feature_views, stream_feature_views, on_demand_feature_views, request_feature_views,
  replace_unless_same,
}
use feast.Registry.Valid.{IsValid, ValidIfAny, Outcome}

-- A field whose messages are told apart by name and project.
pub record Keyed {B : Type 0} (field : Repeated B) : Type 0 where
  pub distinct : (r : RegistryProto) → IsValid r → Distinct (field.get r)
  pub get_put : (ps : List (Proto B)) (r : RegistryProto) → field.get (field.put ps r) ≡ ps
  pub get_versioned :
      (version : String) (now : ℕ) (r : RegistryProto)
      → field.get (record r { version_id = version; last_updated = some now }) ≡ field.get r
  pub put_valid :
      (ps : List (Proto B)) (r : RegistryProto) → Distinct ps → IsValid r → IsValid (field.put ps r)

pub entities-Keyed : Keyed entities
entities-Keyed = record {
  distinct = λ r h. let (d, _, _, _, _, _, _, _, _, _) = h.parts in d;
  get_put = λ ps r. refl;
  get_versioned = λ version now r. refl;
  put_valid = λ ps r d h.
      let (_, fs, ds, os, qs, ss, xs, ts, vs, ms) = h.parts in
      record { parts = (d, fs, ds, os, qs, ss, xs, ts, vs, ms) };
}

pub feature_views-Keyed : Keyed feature_views
feature_views-Keyed = record {
  distinct = λ r h. let (_, d, _, _, _, _, _, _, _, _) = h.parts in d;
  get_put = λ ps r. refl;
  get_versioned = λ version now r. refl;
  put_valid = λ ps r d h.
      let (es, _, ds, os, qs, ss, xs, ts, vs, ms) = h.parts in
      record { parts = (es, d, ds, os, qs, ss, xs, ts, vs, ms) };
}

pub on_demand_feature_views-Keyed : Keyed on_demand_feature_views
on_demand_feature_views-Keyed = record {
  distinct = λ r h. let (_, _, _, d, _, _, _, _, _, _) = h.parts in d;
  get_put = λ ps r. refl;
  get_versioned = λ version now r. refl;
  put_valid = λ ps r d h.
      let (es, fs, ds, _, qs, ss, xs, ts, vs, ms) = h.parts in
      record { parts = (es, fs, ds, d, qs, ss, xs, ts, vs, ms) };
}

pub request_feature_views-Keyed : Keyed request_feature_views
request_feature_views-Keyed = record {
  distinct = λ r h. let (_, _, _, _, d, _, _, _, _, _) = h.parts in d;
  get_put = λ ps r. refl;
  get_versioned = λ version now r. refl;
  put_valid = λ ps r d h.
      let (es, fs, ds, os, _, ss, xs, ts, vs, ms) = h.parts in
      record { parts = (es, fs, ds, os, d, ss, xs, ts, vs, ms) };
}

pub stream_feature_views-Keyed : Keyed stream_feature_views
stream_feature_views-Keyed = record {
  distinct = λ r h. let (_, _, _, _, _, d, _, _, _, _) = h.parts in d;
  get_put = λ ps r. refl;
  get_versioned = λ version now r. refl;
  put_valid = λ ps r d h.
      let (es, fs, ds, os, qs, _, xs, ts, vs, ms) = h.parts in
      record { parts = (es, fs, ds, os, qs, d, xs, ts, vs, ms) };
}

pub feature_services-Keyed : Keyed feature_services
feature_services-Keyed = record {
  distinct = λ r h. let (_, _, _, _, _, _, d, _, _, _) = h.parts in d;
  get_put = λ ps r. refl;
  get_versioned = λ version now r. refl;
  put_valid = λ ps r d h.
      let (es, fs, ds, os, qs, ss, _, ts, vs, ms) = h.parts in
      record { parts = (es, fs, ds, os, qs, ss, d, ts, vs, ms) };
}

pub saved_datasets-Keyed : Keyed saved_datasets
saved_datasets-Keyed = record {
  distinct = λ r h. let (_, _, _, _, _, _, _, d, _, _) = h.parts in d;
  get_put = λ ps r. refl;
  get_versioned = λ version now r. refl;
  put_valid = λ ps r d h.
      let (es, fs, ds, os, qs, ss, xs, _, vs, ms) = h.parts in
      record { parts = (es, fs, ds, os, qs, ss, xs, d, vs, ms) };
}

pub validation_references-Keyed : Keyed validation_references
validation_references-Keyed = record {
  distinct = λ r h. let (_, _, _, _, _, _, _, _, d, _) = h.parts in d;
  get_put = λ ps r. refl;
  get_versioned = λ version now r. refl;
  put_valid = λ ps r d h.
      let (es, fs, ds, os, qs, ss, xs, ts, _, ms) = h.parts in
      record { parts = (es, fs, ds, os, qs, ss, xs, ts, d, ms) };
}

-- The branches of a change.
module _ {A C : Type 0} (Q : A → Type 0) where
  pub Outcome-option :
      (o : Option C) (m : Result A) (k : C → Result A)
      → (o ≡ none → Outcome Q m)
      → ((c : C) → o ≡ some c → Outcome Q (k c))
      → Outcome Q (elim o [ none ↦ m | some c ↦ k c ])
  Outcome-option none m k on_none on_some = on_none refl
  Outcome-option (some c) m k on_none on_some = on_some c refl

  pub Outcome-result :
      (o : Result C) (k : C → Result A)
      → ((c : C) → o ≡ ok c → Outcome Q (k c))
      → Outcome Q (elim o [ err e ↦ err e | ok c ↦ k c ])
  Outcome-result (err e) k on_ok = tt
  Outcome-result (ok c) k on_ok = on_ok c refl

module _ {B : Type 0} (field : Repeated B) (keyed : Keyed field) (r : RegistryProto)
    (h : IsValid r) where
  pub replace-IsValid : (p : Proto B) → IsValid (replace field p r)
  unfolding replace
  replace-IsValid p = keyed.put_valid _ r (upserted-Distinct p (field.get r) (keyed.distinct r h)) h

  pub replace_each-replace : (p : Proto B) → replace_each field p r ≡ replace field p r
  unfolding replace replace_each
  replace_each-replace p =
      ap (λ ps. field.put (ps ++ p ∷ []) r)
        (delete_each-Distinct p.name p.project (field.get r) (keyed.distinct r h))

  pub remove-Outcome :
      (name project : String) (otherwise : Result RegistryProto)
      → Outcome IsValid otherwise
      → Outcome IsValid (remove field (matches name project) r otherwise)
  unfolding remove
  remove-Outcome name project otherwise k =
      Outcome-option _ (find_first (matches name project) (field.get r)) _ _ (λ _. k)
        λ p _.
          keyed.put_valid _ r
            (delete_first-Distinct name project (field.get r) (keyed.distinct r h)) h

  pub replace_unless_same-Outcome :
      {A : Type 0} (read : Proto B → Result A) (same : A → Result Bool) (p : Proto B)
      → Outcome ValidIfAny (replace_unless_same field read same p r)
  unfolding replace_unless_same
  replace_unless_same-Outcome read same p =
      Outcome-option _ (find_first (matches p.name p.project) (field.get r)) _ _
        (λ _. replace-IsValid p)
        λ q _.
          Outcome-result ValidIfAny (read q) _
            λ v _. Outcome-result ValidIfAny (same v) _ λ b _. go b
    where
      go : (b : Bool) → ValidIfAny (if b then none else some (replace field p r))
      go true = tt
      go false = replace-IsValid p
