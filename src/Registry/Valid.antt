-- ===== src/Registry/Valid.antt =====
-- The registry's invariant: under each name and project at most one object of a kind is stored, in the
-- cache and in the store alike. Methods keep it, whether they return or raise.
pub mod Prepared
pub mod Fields
pub mod Operations
pub mod Views
pub mod Sequences
use feast.Base.{
  ℕ, zero, suc, String, Bool, true, false, ◌≡◌, refl, ◌≢◌, arith, Option, none, some, List, [], ◌∷◌,
  ◌++◌, Result, ok, err, Error, find_first, ◌==◌, string_eq, if◌then◌else◌, Bool-cases,
  Option-cases, Result-cases, inl, inr, find_first-append_none, file_not_found,
}
use feast.Proto.Distinct.{Distinct, DistinctNames}
use feast.Registry.State.{
  ProjectMetadata, RegistryProto, empty_registry, Env, State, Action, pure, raise, gets, lift,
  catch_file_not_found, ◌>>=◌, ◌>>◌, modify, when, cached_proto, put_cached, utcnow, uuid4,
  store_get, store_update, commit,
}

-- At most one entry for each project.
abbrev pub DistinctProjects : List ProjectMetadata → Type 0
DistinctProjects [] = Unit
DistinctProjects (m ∷ ms) =
    (find_first (λ (n : ProjectMetadata). n.project == m.project) ms ≡ none) × DistinctProjects ms

-- Data sources are told apart by their names alone, as `apply_data_source` does.
abbrev pub Parts : RegistryProto → Type 0
Parts r =
    Distinct r.entities
    × Distinct r.feature_views
    × DistinctNames r.data_sources
    × Distinct r.on_demand_feature_views
    × Distinct r.request_feature_views
    × Distinct r.stream_feature_views
    × Distinct r.feature_services
    × Distinct r.saved_datasets
    × Distinct r.validation_references
    × DistinctProjects r.project_metadata

pub record IsValid (r : RegistryProto) : Type 0 where
  pub parts : Parts r

abbrev pub ValidIfAny : Option RegistryProto → Type 0
ValidIfAny none = Unit
ValidIfAny (some r) = IsValid r

abbrev pub StateValid : State → Type 0
StateValid s = ValidIfAny s.cached_registry_proto × ValidIfAny s.file

-- What holds of a result that is no exception.
abbrev pub Outcome : {A : Type 0} → (A → Type 0) → Result A → Type 0
Outcome Q (ok a) = Q a
Outcome Q (err e) = Unit

-- `m` keeps the invariant, and what it returns satisfies `Q`.
pub record Keeps {A : Type 0} (Q : A → Type 0) (m : Action A) : Type 0 where
  pub at : (s : State) → StateValid s → StateValid (m s).1 × Outcome Q (m s).0

abbrev pub Anything : {A : Type 0} → A → Type 0
Anything a = Unit

module _ {A : Type 0} {Q : A → Type 0} where
  pub Keeps-pure : (a : A) → Q a → Keeps Q (pure a)
  unfolding pure
  Keeps-pure a q = record { at = λ s v. (v, q) }

  pub Keeps-raise : (e : Error) → Keeps Q (raise e)
  unfolding raise
  Keeps-raise e = record { at = λ s v. (v, tt) }

  pub Keeps-lift : (r : Result A) → Outcome Q r → Keeps Q (lift r)
  unfolding lift
  Keeps-lift r q = record { at = λ s v. (v, q) }

pub Keeps-gets : {A : Type 0} (f : State → A) → Keeps Anything (gets f)
unfolding gets
Keeps-gets f = record { at = λ s v. (v, tt) }

module _ {A B : Type 0} {Q : A → Type 0} {R : B → Type 0} where
  after :
      (f : A → Action B) (r : Result A) (s : State)
      → StateValid s
      → Outcome Q r
      → ((a : A) → Q a → Keeps R (f a))
      → let run : Result B × State = elim r [ ok a ↦ f a s | err e ↦ (err e, s) ] in
        StateValid run.1 × Outcome R run.0
  after f (ok a) s v q rest = (rest a q).at s v
  after f (err e) s v q rest = (v, tt)

  pub Keeps-bind :
      (m : Action A) (f : A → Action B)
      → Keeps Q m
      → ((a : A) → Q a → Keeps R (f a))
      → Keeps R (m >>= f)
  unfolding ◌>>=◌
  Keeps-bind m f first rest = record {
    at = λ s v. let (v', q) = first.at s v in after f (m s).0 (m s).1 v' q rest;
  }

module _ {A : Type 0} {Q : A → Type 0} where
  caught :
      (handler : Action A) (r : Result A) (s : State)
      → StateValid s
      → Outcome Q r
      → Keeps Q handler
      → let run : Result A × State = elim r [
        | ok a ↦ (ok a, s)
        | err e ↦ elim e [ file_not_found ↦ handler s | other ↦ (err other, s) ]
      ] in
        StateValid run.1 × Outcome Q run.0
  caught handler (ok a) s v q h = (v, q)
  caught handler (err file_not_found) s v q h = h.at s v
  caught handler (err _) s v q h = (v, tt)

  pub Keeps-catch :
      (m handler : Action A)
      → Keeps Q m
      → Keeps Q handler
      → Keeps Q (catch_file_not_found m handler)
  unfolding catch_file_not_found
  Keeps-catch m handler first h = record {
    at = λ s v. let (v', q) = first.at s v in caught handler (m s).0 (m s).1 v' q h;
  }

-- The branches of an action.
module _ {A : Type 0} {Q : A → Type 0} where
  pub Keeps-elim :
      {C : Type 0} (o : Option C) (m : Action A) (k : C → Action A)
      → (o ≡ none → Keeps Q m)
      → ((c : C) → o ≡ some c → Keeps Q (k c))
      → Keeps Q (elim o [ none ↦ m | some c ↦ k c ])
  Keeps-elim none m k on_none on_some = on_none refl
  Keeps-elim (some c) m k on_none on_some = on_some c refl

  pub Keeps-if : (b : Bool) (m n : Action A) → Keeps Q m → Keeps Q n → Keeps Q (if b then m else n)
  Keeps-if true m n p q = p
  Keeps-if false m n p q = q

-- The actions on the state.
pub cached_proto-Keeps : Keeps IsValid cached_proto
unfolding cached_proto
cached_proto-Keeps = record { at = λ s v. go s.cached_registry_proto s v.0 v }
  where
    go :
        (c : Option RegistryProto) (s : State)
        → ValidIfAny c
        → StateValid s
        → let run : Result RegistryProto × State = elim c [
          | none ↦ (err Error.assertion_error, s)
          | some p ↦ (ok p, s)
        ] in
          StateValid run.1 × Outcome IsValid run.0
    go none s c v = (v, tt)
    go (some p) s c v = (v, c)

pub put_cached-Keeps : (r : RegistryProto) → IsValid r → Keeps Anything (put_cached r)
unfolding put_cached
put_cached-Keeps r h = record { at = λ s v. ((h, v.1), tt) }

module _ (env : Env) where
  pub utcnow-Keeps : Keeps Anything (utcnow env)
  unfolding utcnow
  utcnow-Keeps = record { at = λ s v. (v, tt) }

  pub uuid4-Keeps : Keeps Anything (uuid4 env)
  unfolding uuid4
  uuid4-Keeps = record { at = λ s v. (v, tt) }

  pub store_get-Keeps : Keeps IsValid (store_get env)
  unfolding store_get
  store_get-Keeps = record { at = λ s v. go s.file s v.1 v }
    where
      go :
          (c : Option RegistryProto) (s : State)
          → ValidIfAny c
          → StateValid s
          → let run : Result RegistryProto × State = elim c [
            | none ↦ (err file_not_found, s)
            | some p ↦ (ok p, s)
          ] in
            StateValid run.1 × Outcome IsValid run.0
      go none s c v = (v, tt)
      go (some p) s c v = (v, c)

  -- A message with another version and date.
  versioned-IsValid :
      (r : RegistryProto) (version : String) (now : ℕ)
      → IsValid r
      → IsValid (record r { version_id = version; last_updated = some now })
  versioned-IsValid r version now h = record { parts = h.parts }

  pub commit-Keeps : Keeps Anything (commit env)
  unfolding commit
  commit-Keeps = record { at = λ s v. go s.cached_registry_proto s v.0 v }
    where
      go :
          (c : Option RegistryProto) (s : State)
          → ValidIfAny c
          → StateValid s
          → let run : Result (Unit {0}) × State = elim c [
            | none ↦ (ok tt, s)
            | some p ↦ (do p' ← store_update env p; put_cached p') s
          ] in
            StateValid run.1 × Outcome Anything run.0
      go none s c v = (v, tt)
      go (some p) s c v = (
        (
          versioned-IsValid p (env.uuid s.draws) (env.clock s.readings) c,
          versioned-IsValid p (env.uuid s.draws) (env.clock s.readings) c,
        ),
        tt,
      )

  pub when-commit-Keeps : (b : Bool) → Keeps Anything (when b (commit env))
  when-commit-Keeps true = commit-Keeps
  when-commit-Keeps false = Keeps-pure tt tt
