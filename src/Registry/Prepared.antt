-- ===== src/Registry/Prepared.antt =====
-- What `_get_registry_proto` and `_prepare_registry_for_changes` of
-- sdk/python/feast/infra/registry/registry.py return, from any state and from a settled one.
use feast.Base.{
  String, Bool, true, false, ◌≡◌, ◌≢◌, refl, sym, subst, ap, ◌∙◌, ◌&&◌, not, none, some, Error,
}
use mathlib.Core.Option.{some-injective, some-ne-none}
use feast.Registry.State.{
  RegistryProto, Env, State, pure, gets, ◌>>=◌, ◌>>◌, cached_proto, put_cached, utcnow,
}
use feast.Registry.Cache.{
  get_project_metadata, is_expired, fetch, add_project, knows, used_or_fetched, get_registry_proto,
  start_fresh, load_for_changes, prepare, fresh_registry,
}
use feast.Registry.Ends.{Ends, Never, NotFound, Ends-if, Ends-option, Ends-catch, Ends-bind}
use feast.Registry.Settled.{
  Known, Cached, Settled, pure-Ends, gets-Ends, put_cached-Ends, modify-Ends, utcnow-Ends,
  cached_proto-Ends, add_project-Ends, is_expired-Ends, fetch-Ends, get_registry_proto-Ends,
}

-- A message that knows the project is not one without its entry.
pub Known-none :
    (project : String) (r : RegistryProto)
    → Known project r
    → get_project_metadata (some r) project ≡ none
    → ⊥
Known-none project r k e = cc

module _ (env : Env) where
  -- The registry can be prepared for every project that has a name, whether or not the store's file
  -- exists, the cache is filled or has expired, or the project is known. The message that is returned
  -- is the one cached, and it knows the project.
  pub prepare-Ends :
      (project : String) (s : State)
      → project ≢ ""
      → Ends (λ r t. Cached r t × Known project r) Never (prepare env project) s
  unfolding prepare load_for_changes
  prepare-Ends project s h =
      Ends-bind (load_for_changes env project) _ s
        (Ends-catch {Q = λ _ t. (r : RegistryProto) × Cached r t} {H = λ _. Unit} _
          (start_fresh env) s loads λ t _. starts t)
        λ _ t c.
          Ends-bind cached_proto _ t (cached_proto-Ends {Q = λ r u. Cached r u} c.0 t c.1 c.1)
            λ r u d.
              Ends-option (get_project_metadata (some r) project) (add_project env r project)
                (λ _. pure r) u (add_project-Ends env r project u h) λ m e. pure-Ends r u (d, rw e)
    where
      starts :
          (t : State) → Ends (λ _ u. (r : RegistryProto) × Cached r u) Never (start_fresh env) t
      starts t =
          Ends-bind (put_cached fresh_registry) _ t
            (put_cached-Ends {Q = λ _ u. Cached fresh_registry u} fresh_registry t refl)
            λ _ u c.
              Ends-bind (utcnow env) _ u (utcnow-Ends {Q = λ _ u. Cached fresh_registry u} env u c)
                λ now v d.
                  modify-Ends (λ s. record s { cached_registry_proto_created = some now }) v
                    (fresh_registry, d)

      loads :
          Ends
            (λ _ t. (r : RegistryProto) × Cached r t)
            (NotFound (λ _. Unit))
            (do
              get_registry_proto env (some project) true
              cached ← gets (λ s. s.cached_registry_proto)
              elim (get_project_metadata cached project) [
                | some _ ↦ pure tt
                | none ↦ do get_registry_proto env (some project) false; pure tt
              ])
            s
      loads =
          Ends-bind (get_registry_proto env (some project) true) _ s
            (get_registry_proto-Ends env project true s h)
            λ r t c.
              Ends-bind (gets (λ s. s.cached_registry_proto)) _ t
                (gets-Ends {Q = λ o u. Cached r u} (λ s. s.cached_registry_proto) t c.0)
                λ o u d.
                  Ends-option (get_project_metadata o project) _ _ u
                    (λ _.
                      Ends-bind (get_registry_proto env (some project) false) _ u
                        (get_registry_proto-Ends env project false u h)
                        λ r' v e. pure-Ends tt v (r', e.0))
                    λ m _. pure-Ends tt u (r, d)

  -- In a settled registry that knows the project, it is the stored message, and nothing is written.
  pub get_registry_proto-Settled :
      {E : Error → State → Type 0} (r : RegistryProto) (project : String) (allow_cache : Bool)
      (s : State)
      → project ≢ ""
      → Known project r
      → Settled r s
      → Ends
          (λ r' t. (r' ≡ r) × Settled r t)
          E
          (get_registry_proto env (some project) allow_cache)
          s
  unfolding get_registry_proto used_or_fetched
  get_registry_proto-Settled r project allow_cache s h k settled =
      Ends-bind (is_expired env) _ s
        (is_expired-Ends env {Q = λ _ t. Settled r t} s
          λ _ _. record { cached = settled.cached; stored = settled.stored })
        λ expired t d.
          Ends-bind (gets (knows (some project))) _ t
            (gets-Ends {Q = λ _ u. Settled r u} (knows (some project)) t d)
            λ known u f.
              Ends-if (allow_cache && not expired && known) cached_proto (fetch env (some project))
                u (λ _. cached_proto-Ends r u (f.cached) (refl, f))
                λ _.
                  fetch-Ends env project u h (λ absent. elim (absent_absurd u f absent) [ ])
                    (λ r' v e _ _ fresh.
                      elim (Known-none project r k (
                        subst (λ m. get_project_metadata (some m) project ≡ none)
                          (sym (same u r' f e)) fresh)) [ ])
                    λ r' v e c w _. (
                      sym (same u r' f e),
                      record { cached = c ∙ ap some (sym (same u r' f e)); stored = w ∙ f.stored },
                    )
    where
      absent_absurd : (u : State) → Settled r u → u.file ≡ none → ⊥
      absent_absurd u f e = some-ne-none r (sym (f.stored) ∙ e)

      same : (u : State) (r' : RegistryProto) → Settled r u → u.file ≡ some r' → r ≡ r'
      same u r' f e = some-injective r r' (sym (f.stored) ∙ e)

  -- The registry is prepared with the message that is read first, if cache and store hold it then.
  pub prepare-reads :
      (r : RegistryProto) (project : String) (s : State)
      → project ≢ ""
      → Known project r
      → Ends
          (λ r' t. (r' ≡ r) × Settled r t)
          (NotFound (λ _. ⊥))
          (get_registry_proto env (some project) true)
          s
      → Ends (λ r' t. (r' ≡ r) × Settled r t) Never (prepare env project) s
  unfolding prepare load_for_changes
  prepare-reads r project s h k first =
      Ends-bind (load_for_changes env project) _ s
        (Ends-catch {Q = λ _ t. Settled r t} {H = λ _. ⊥} _ (start_fresh env) s loads
          λ t e. elim e [ ])
        λ _ t c.
          Ends-bind cached_proto _ t
            (cached_proto-Ends {Q = λ r' u. (r' ≡ r) × Settled r u} r t c.cached (refl, c))
            λ r' u d.
              Ends-option (get_project_metadata (some r') project) (add_project env r' project)
                (λ _. pure r') u
                (λ fresh.
                  elim (Known-none project r k
                    (subst (λ m. get_project_metadata (some m) project ≡ none) d.0 fresh)) [ ])
                λ m e. pure-Ends r' u d
    where
      loads :
          Ends
            (λ _ t. Settled r t)
            (NotFound (λ _. ⊥))
            (do
              get_registry_proto env (some project) true
              cached ← gets (λ s. s.cached_registry_proto)
              elim (get_project_metadata cached project) [
                | some _ ↦ pure tt
                | none ↦ do get_registry_proto env (some project) false; pure tt
              ])
            s
      loads = Ends-bind (get_registry_proto env (some project) true) _ s first λ r' t c.
          Ends-bind (gets (λ s. s.cached_registry_proto)) _ t
            (gets-Ends {Q = λ o u. Settled r u} (λ s. s.cached_registry_proto) t c.1)
            λ o u d.
              Ends-option (get_project_metadata o project) _ _ u
                (λ _.
                  Ends-bind (get_registry_proto env (some project) false) _ u
                    (get_registry_proto-Settled r project false u h k d)
                    λ r' v e. pure-Ends tt v e.1)
                λ m _. pure-Ends tt u d

  -- A settled registry that knows the project is prepared as it is.
  pub prepare-Settled :
      (r : RegistryProto) (project : String) (s : State)
      → project ≢ ""
      → Known project r
      → Settled r s
      → Ends (λ r' t. (r' ≡ r) × Settled r t) Never (prepare env project) s
  prepare-Settled r project s h k settled =
      prepare-reads r project s h k (get_registry_proto-Settled r project true s h k settled)
