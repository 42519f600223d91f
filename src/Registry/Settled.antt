-- ===== src/Registry/Settled.antt =====
-- How the cache of the class `Registry` (sdk/python/feast/infra/registry/registry.py) is read and
-- prepared: from any state, and from a state in which nothing waits for a commit.
use feast.Base.{
  ℕ, zero, suc, ◌+◌, String, Bool, true, false, ◌≡◌, ◌≢◌, refl, ◌&&◌, not, Option, none, some, [],
  ◌∷◌, ◌++◌, Result, ok, err, Error, ◌==◌, ==-ne, ==-refl, string_eq, find_first-append_none, arith,
  ltb, file_not_found, ap, sym, subst, ◌∙◌,
}
use feast.Registry.State.{
  ProjectMetadata, RegistryProto, Env, State, pure, raise, gets, lift, ◌>>=◌, modify, cached_proto,
  put_cached, utcnow, uuid4, store_get, store_update, commit,
}
use feast.Registry.Cache.{
  get_project_metadata, is_some, init_project_metadata, is_expired, fetch, add_project, named,
  knows, used_or_fetched, get_registry_proto,
}
use feast.Registry.Ends.{Ends, EndsIn, NotFound, Ends-eq, Ends-if, Ends-option, Ends-bind}

abbrev pub Known : String → RegistryProto → Type 0
Known project r = is_some (get_project_metadata (some r) project) ≡ true

abbrev pub Cached : RegistryProto → State → Type 0
Cached r t = t.cached_registry_proto ≡ some r

-- The cache holds what the store holds.
pub record Settled (r : RegistryProto) (t : State) : Type 0 where
  pub cached : Cached r t
  pub stored : t.file ≡ some r

-- A message as `update_registry_proto` of the store writes it.
abbrev pub versioned : String → ℕ → RegistryProto → RegistryProto
versioned version now r = record r { version_id = version; last_updated = some now }

pub Known-versioned :
    (project version : String) (now : ℕ) (r : RegistryProto)
    → Known project r
    → Known project (versioned version now r)
unfolding get_project_metadata
Known-versioned project version now r k = k

pub appended-Known :
    (r : RegistryProto) (m : ProjectMetadata)
    → get_project_metadata (some r) m.project ≡ none
    → Known m.project (record r { project_metadata = r.project_metadata ++ m ∷ [] })
unfolding get_project_metadata
appended-Known r m fresh = rw (
  find_first-append_none (λ (n : ProjectMetadata). n.project == m.project) r.project_metadata m
      fresh,
  ==-refl m.project,
)

module _ {A : Type 0} {Q : A → State → Type 0} {E : Error → State → Type 0} where
  pub pure-Ends : (a : A) (s : State) → Q a s → Ends Q E (pure a) s
  unfolding pure
  pure-Ends a s q = record { holds = q }

  pub gets-Ends : (f : State → A) (s : State) → Q (f s) s → Ends Q E (gets f) s
  unfolding gets
  gets-Ends f s q = record { holds = q }

module _ {Q : Unit {0} → State → Type 0} {E : Error → State → Type 0} where
  pub put_cached-Ends :
      (r : RegistryProto) (s : State)
      → Q tt (record s { cached_registry_proto = some r })
      → Ends Q E (put_cached r) s
  unfolding put_cached
  put_cached-Ends r s q = record { holds = q }

  pub modify-Ends : (f : State → State) (s : State) → Q tt (f s) → Ends Q E (modify f) s
  unfolding modify
  modify-Ends f s q = record { holds = q }

pub utcnow-Ends :
    {Q : ℕ → State → Type 0} {E : Error → State → Type 0} (env : Env) (s : State)
    → Q (env.clock s.readings) (record s { readings = s.readings + 1 })
    → Ends Q E (utcnow env) s
unfolding utcnow
utcnow-Ends env s q = record { holds = q }

store_get-Ends :
    {Q : RegistryProto → State → Type 0} {E : Error → State → Type 0} (env : Env) (s : State)
    → (s.file ≡ none → E file_not_found s)
    → ((r : RegistryProto) → s.file ≡ some r → Q r s)
    → Ends Q E (store_get env) s
unfolding store_get
store_get-Ends {Q} {E} env s absent present = record { holds = go s.file absent present }
  where
    go :
        (c : Option RegistryProto)
        → (c ≡ none → E file_not_found s)
        → ((r : RegistryProto) → c ≡ some r → Q r s)
        → EndsIn Q E (
            let run : Result RegistryProto × State = elim c [
              | none ↦ (err file_not_found, s)
              | some p ↦ (ok p, s)
            ] in
            run)
    go none absent present = absent refl
    go (some r) absent present = present r refl

pub cached_proto-Ends :
    {Q : RegistryProto → State → Type 0} {E : Error → State → Type 0} (r : RegistryProto)
    (s : State)
    → Cached r s
    → Q r s
    → Ends Q E cached_proto s
unfolding cached_proto
cached_proto-Ends r s c q = Ends-eq cached_proto s r s (rw c) q

last-true : (a b c : Bool) → (a && b && c) ≡ true → c ≡ true
last-true a b c h = ground arith

-- A cache that knows the project is there.
knows-Cached :
    (project : String) (s : State)
    → project ≢ ""
    → knows (some project) s ≡ true
    → (r : RegistryProto) × Cached r s × Known project r
unfolding get_project_metadata
knows-Cached project s h k = go s.cached_registry_proto (
    subst
      (λ o.
        elim o [
          | none ↦ true
          | some name ↦ is_some (get_project_metadata s.cached_registry_proto name)
        ]
        ≡ true)
      named_project k)
  where
    named_project : named (some project) ≡ some project
    named_project = rw (==-ne project "" h)

    go :
        (c : Option RegistryProto)
        → is_some (get_project_metadata c project) ≡ true
        → (r : RegistryProto) × (c ≡ some r) × Known project r
    go none e = cc
    go (some r) e = (r, refl, e)

module _ (env : Env) where
  -- A project that the message does not know is added and stored.
  pub add_project-Ends :
      {E : Error → State → Type 0} (r : RegistryProto) (project : String) (s : State)
      → project ≢ ""
      → get_project_metadata (some r) project ≡ none
      → Ends (λ r' t. Cached r' t × Known project r') E (add_project env r project) s
  unfolding add_project init_project_metadata uuid4 utcnow put_cached commit store_update
      cached_proto modify get_project_metadata ◌>>=◌ pure raise gets lift
  add_project-Ends r project s h fresh =
      Ends-eq (add_project env r project) s r' t (rw (==-ne project "" h)) (
        refl,
        appended-Known r (record { project = project; project_uuid = env.uuid s.draws }) fresh,
      )
    where
      r' : RegistryProto
      r' = versioned (env.uuid (s.draws + 1)) (env.clock s.readings) (record r {
        project_metadata =
            r.project_metadata
            ++ record { project = project; project_uuid = env.uuid s.draws } ∷ [];
      })

      t : State
      t = record s {
        cached_registry_proto = some r';
        file = some r';
        readings = s.readings + 1;
        draws = s.draws + 1 + 1;
      }

  -- Whether the cache has expired: only the clock moves.
  pub is_expired-Ends :
      {Q : Bool → State → Type 0} {E : Error → State → Type 0} (s : State)
      → ((b : Bool) (n : ℕ) → Q b (record s { readings = n }))
      → Ends Q E (is_expired env) s
  unfolding is_expired utcnow ◌>>=◌ pure
  is_expired-Ends {Q} {E} s q = record {
    holds = go s.cached_registry_proto s.cached_registry_proto_created s.cached_registry_proto_ttl;
  }
    where
      go :
          (c : Option RegistryProto) (created : Option ℕ) (ttl : ℕ)
          → EndsIn Q E (
              let run : Result Bool × State = elim c [
                | none ↦ (ok true, s)
                | some _ ↦ elim created [
                  | none ↦ (ok true, s)
                  | some created ↦ elim ttl [
                    | zero ↦ (ok false, s)
                    | suc n ↦ (do now ← utcnow env; pure (ltb (created + suc n) now)) s
                  ]
                ]
              ] in
              run)
      go none created ttl = q true s.readings
      go (some c) none ttl = q true s.readings
      go (some c) (some t) zero = q false s.readings
      go (some c) (some t) (suc n) = q (ltb (t + suc n) (env.clock s.readings)) (s.readings + 1)

  -- What the store holds is cached; what follows depends on whether it knows the project.
  loaded-Ends :
      {Q : RegistryProto → State → Type 0} {E : Error → State → Type 0} (project : String)
      (r : RegistryProto) (s : State)
      → project ≢ ""
      → (get_project_metadata (some r) project ≡ none → Ends Q E (add_project env r project) s)
      → (Known project r → Q r s)
      → Ends Q E
          (elim (named (some project)) [
            | none ↦ pure r
            | some name ↦ elim (get_project_metadata (some r) name) [
              | some _ ↦ pure r
              | none ↦ add_project env r name
            ]
          ])
          s
  loaded-Ends project r s h fresh known = rw (==-ne project "" h) (
      Ends-option (get_project_metadata (some r) project) (add_project env r project) (λ _. pure r)
        s fresh λ m e. pure-Ends r s (known (rw e)))

  -- `fetch`, from a file that may be missing.
  pub fetch-Ends :
      {Q : RegistryProto → State → Type 0} {E : Error → State → Type 0} (project : String)
      (s : State)
      → project ≢ ""
      → (s.file ≡ none → E file_not_found s)
      → ((r : RegistryProto) (t : State)
          → s.file ≡ some r
          → Cached r t
          → t.file ≡ s.file
          → get_project_metadata (some r) project ≡ none
          → Ends Q E (add_project env r project) t)
      → ((r : RegistryProto) (t : State)
          → s.file ≡ some r
          → Cached r t
          → t.file ≡ s.file
          → Known project r
          → Q r t)
      → Ends Q E (fetch env (some project)) s
  unfolding fetch
  fetch-Ends {Q} {E} project s h absent fresh known =
      Ends-bind (store_get env) _ s
        (store_get-Ends {Q = λ r t. (s.file ≡ some r) × (t ≡ s)} env s absent λ r e. (e, refl))
        λ r t e.
          Ends-bind (put_cached r) _ t
            (put_cached-Ends {Q = λ _ u. Cached r u × (u.file ≡ s.file)} r t
              (refl, ap (λ (u : State). u.file) e.1))
            λ _ u c.
              Ends-bind (utcnow env) _ u
                (utcnow-Ends {Q = λ _ u. Cached r u × (u.file ≡ s.file)} env u c)
                λ now v d.
                  Ends-bind (modify (λ s. record s { cached_registry_proto_created = some now })) _
                    v (modify-Ends {Q = λ _ u. Cached r u × (u.file ≡ s.file)} _ v d)
                    λ _ w f.
                      loaded-Ends project r w h (fresh r w e.0 f.0 f.1) (known r w e.0 f.0 f.1)

  -- What `_get_registry_proto` returns is cached, and knows the project; the file may be missing.
  pub get_registry_proto-Ends :
      (project : String) (allow_cache : Bool) (s : State)
      → project ≢ ""
      → Ends
          (λ r t. Cached r t × Known project r)
          (NotFound (λ _. Unit))
          (get_registry_proto env (some project) allow_cache)
          s
  unfolding get_registry_proto used_or_fetched
  get_registry_proto-Ends project allow_cache s h =
      Ends-bind (is_expired env) _ s (is_expired-Ends {Q = λ _ _. Unit} s λ _ _. tt) λ expired t _.
        Ends-bind (gets (knows (some project))) _ t
          (gets-Ends {Q = λ known u. known ≡ knows (some project) u} (knows (some project)) t refl)
          λ known u e.
            Ends-if (allow_cache && not expired && known) cached_proto (fetch env (some project)) u
              (λ served.
                let (r, c, k) =
                  knows-Cached project u h
                    (sym e ∙ last-true allow_cache (not expired) known served) in
                cached_proto-Ends r u c (c, k))
              λ _.
                fetch-Ends project u h (λ _. (refl, tt))
                  (λ r v _ _ _ fresh. add_project-Ends r project v h fresh) λ r v _ c _ k. (c, k)
