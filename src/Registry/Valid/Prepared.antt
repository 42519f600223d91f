-- ===== src/Registry/Valid/Prepared.antt =====
-- Filling the cache and preparing it for changes, `_get_registry_proto` and
-- `_prepare_registry_for_changes` of sdk/python/feast/infra/registry/registry.py, keep the invariant.
use feast.Base.{
  ℕ, zero, suc, String, Bool, true, false, ◌≡◌, refl, arith, Option, none, some, List, [], ◌∷◌,
  ◌++◌, Result, ok, find_first, ◌==◌, string_eq, find_first-append_none, ◌&&◌, not, ltb, ◌+◌,
}
use feast.Registry.State.{ProjectMetadata, RegistryProto, Env, State, pure, ◌>>=◌, modify, utcnow}
use feast.Registry.Cache.{
  get_project_metadata, init_project_metadata, is_expired, fetch, add_project, named,
  get_registry_proto, knows, used_or_fetched, load_for_changes, prepare, fresh_registry,
}
use feast.Registry.Valid.{
  DistinctProjects, IsValid, StateValid, Outcome, Keeps, Anything, Keeps-pure, Keeps-raise,
  Keeps-gets, Keeps-bind, Keeps-catch, Keeps-elim, Keeps-if, cached_proto-Keeps, put_cached-Keeps,
  utcnow-Keeps, uuid4-Keeps, store_get-Keeps, commit-Keeps,
}

append-DistinctProjects :
    (ms : List ProjectMetadata) (m : ProjectMetadata)
    → DistinctProjects ms
    → find_first (λ (n : ProjectMetadata). n.project == m.project) ms ≡ none
    → DistinctProjects (ms ++ m ∷ [])
unfolding find_first
append-DistinctProjects [] m d h = (refl, tt)
append-DistinctProjects (n ∷ ms) m d h = ground (
  arith,
  append-DistinctProjects ms m d.1,
  find_first-append_none (λ (k : ProjectMetadata). k.project == n.project) ms m,
)

fresh_registry-IsValid : IsValid fresh_registry
fresh_registry-IsValid = record { parts = (tt, tt, tt, tt, tt, tt, tt, tt, tt, tt) }

module _ (env : Env) where
  with_project-IsValid :
      (r : RegistryProto) (m : ProjectMetadata)
      → IsValid r
      → find_first (λ (n : ProjectMetadata). n.project == m.project) r.project_metadata ≡ none
      → IsValid (record r { project_metadata = r.project_metadata ++ m ∷ [] })
  with_project-IsValid r m h fresh =
      let (es, fs, ds, os, qs, ss, xs, ts, vs, ms) = h.parts in
      record {
        parts = (
          es,
          fs,
          ds,
          os,
          qs,
          ss,
          xs,
          ts,
          vs,
          append-DistinctProjects r.project_metadata m ms fresh,
        );
      }

  init_project_metadata-Keeps :
      (r : RegistryProto) (project : String)
      → IsValid r
      → get_project_metadata (some r) project ≡ none
      → Keeps IsValid (init_project_metadata env r project)
  unfolding init_project_metadata get_project_metadata
  init_project_metadata-Keeps r project h fresh = Keeps-bind _ _ (uuid4-Keeps env) λ uuid _.
      Keeps-if (project == "") _ _ (Keeps-raise _) (
        Keeps-pure _
          (with_project-IsValid r (record { project = project; project_uuid = uuid }) h fresh))

  is_expired-Keeps : Keeps Anything (is_expired env)
  unfolding is_expired ◌>>=◌
  is_expired-Keeps = record {
    at = λ s v.
        go s s.cached_registry_proto s.cached_registry_proto_created s.cached_registry_proto_ttl v;
  }
    where
      go :
          (s : State) (c : Option RegistryProto) (t : Option ℕ) (ttl : ℕ)
          → StateValid s
          → let run : Result Bool × State = elim c [
            | none ↦ (ok true, s)
            | some _ ↦ elim t [
              | none ↦ (ok true, s)
              | some created ↦ elim ttl [
                | zero ↦ (ok false, s)
                | suc n ↦ (do now ← utcnow env; pure (ltb (created + suc n) now)) s
              ]
            ]
          ] in
            StateValid run.1 × Outcome Anything run.0
      go s none t ttl v = (v, tt)
      go s (some c) none ttl v = (v, tt)
      go s (some c) (some t) zero v = (v, tt)
      go s (some c) (some t) (suc n) v = (v, tt)

  created-Keeps :
      (now : ℕ)
      → Keeps Anything (modify (λ s. record s { cached_registry_proto_created = some now }))
  unfolding modify
  created-Keeps now = record { at = λ s v. (v, tt) }

  -- A project that the message does not know is added, cached and committed.
  add_project-Keeps :
      (r : RegistryProto) (name : String)
      → IsValid r
      → get_project_metadata (some r) name ≡ none
      → Keeps IsValid (add_project env r name)
  unfolding add_project
  add_project-Keeps r name valid fresh =
      Keeps-bind _ _ (init_project_metadata-Keeps r name valid fresh) λ r' valid'.
        Keeps-bind _ _ (put_cached-Keeps r' valid')
          λ _ _. Keeps-bind _ _ (commit-Keeps env) λ _ _. cached_proto-Keeps

  pub fetch-Keeps : (project : Option String) → Keeps IsValid (fetch env project)
  unfolding fetch
  fetch-Keeps project = Keeps-bind _ _ (store_get-Keeps env) λ r valid.
      Keeps-bind _ _ (put_cached-Keeps r valid) λ _ _. Keeps-bind _ _ (utcnow-Keeps env) λ now _.
        Keeps-bind _ _ (created-Keeps now) λ _ _.
          Keeps-elim (named project) _ _ (λ _. Keeps-pure r valid)
            λ name _.
              Keeps-elim (get_project_metadata (some r) name) _ _
                (λ fresh. add_project-Keeps r name valid fresh) λ m _. Keeps-pure r valid

  pub get_registry_proto-Keeps :
      (project : Option String) (allow_cache : Bool)
      → Keeps IsValid (get_registry_proto env project allow_cache)
  unfolding get_registry_proto
  get_registry_proto-Keeps project allow_cache =
      Keeps-bind (is_expired env) (used_or_fetched env project allow_cache) is_expired-Keeps
        λ expired _. Keeps-bind _ _ (Keeps-gets (knows project)) λ known _.
          Keeps-if (allow_cache && not expired && known) _ _ cached_proto-Keeps
            (fetch-Keeps project)

  load_for_changes-Keeps : (project : String) → Keeps Anything (load_for_changes env project)
  unfolding load_for_changes
  load_for_changes-Keeps project =
      Keeps-catch _ _
        (Keeps-bind _ _ (get_registry_proto-Keeps (some project) true) λ _ _.
          Keeps-bind _ _ (Keeps-gets (λ s. s.cached_registry_proto)) λ cached _.
            Keeps-elim (get_project_metadata cached project) _ _
              (λ _.
                Keeps-bind _ _ (get_registry_proto-Keeps (some project) false)
                  λ _ _. Keeps-pure tt tt)
              λ m _. Keeps-pure tt tt)
        (Keeps-bind _ _ (put_cached-Keeps fresh_registry fresh_registry-IsValid)
          λ _ _. Keeps-bind _ _ (utcnow-Keeps env) λ now _. created-Keeps now)

  -- Preparing the registry for changes returns a valid message, if it returns.
  pub prepare-Keeps : (project : String) → Keeps IsValid (prepare env project)
  unfolding prepare
  prepare-Keeps project = Keeps-bind _ _ (load_for_changes-Keeps project) λ _ _.
      Keeps-bind _ _ cached_proto-Keeps λ r valid.
        Keeps-elim (get_project_metadata (some r) project) _ _
          (λ fresh. add_project-Keeps r project valid fresh) λ m _. Keeps-pure r valid
