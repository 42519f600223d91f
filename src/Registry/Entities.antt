-- ===== src/Registry/Entities.antt =====
-- The entities of the registry: `apply_entity`, `delete_entity` and `get_entity` of
-- sdk/python/feast/infra/registry/registry.py, read back one after the other.
use feast.Base.{
  Option-cases, ◌⊎◌, inl, inr, ℕ, ◌+◌, String, Bool, true, false, ◌≡◌, ◌≢◌, refl, sym, ap, subst,
  ◌∙◌, Option, none, some, Result, ok, err, Error, if◌then◌else◌, string_eq, ◌==◌, ==-ne, ==-refl,
  ok-injective, ◌&&◌, entity_not_found, delete_first,
}
use mathlib.Core.Option.{some-injective}
use feast.Proto.{matches, set_project}
use feast.Proto.Distinct.{find}
use feast.Entity
use feast.Entity.{Entity, EntityProto}
use feast.Registry.State.{RegistryProto, Env, State}
use feast.Registry.Cache.{get_project_metadata}
use feast.Registry.Lookup.{get_proto, reading, get_entity, read_with}
use feast.Registry.Writes.{
  replace, remove, entities, entity_change, stamped_entity, apply_entity, delete_entity, write,
  changed,
}
use feast.Registry.Valid.{IsValid, StateValid}
use feast.Registry.Valid.Fields.{entities-Keyed}
use feast.Registry.Ends.{Ends, Ends-returns, Ends-raises}
use feast.Registry.Settled.{Known, Settled, versioned}
use feast.Registry.Written.{
  lift-ok-Ends, utcnow-bind-Ends, write-Wrote, write-commits, write-raises,
}
use feast.Registry.Keys.{
  get_proto-replace, get_proto-removed, remove-none, remove-some, Wrote-reading,
}

is_valid-ok : (e : Entity) → e.name ≢ "" → Entity.is_valid e ≡ ok tt
unfolding Entity.is_valid
is_valid-ok e h = rw (==-ne e.name "" h)

-- What the message of an applied entity reads as, in terms of the messages there before.
get_entity-entity_change :
    (e : Entity) (project n m : String) (now : ℕ) (r r' : RegistryProto)
    → IsValid r
    → entity_change e project now r ≡ ok (some r')
    → get_entity r' n m
      ≡ (if e.name == n && project == m then ok (stamped_entity now e) else get_entity r n m)
unfolding entity_change get_entity Entity.to_proto matches
get_entity-entity_change e project n m now r r' h made =
    ap (λ q. get_entity q n m) (sym (some-injective _ _ (ok-injective _ _ made)))
    ∙ ap (read_with Entity.from_proto) (
        get_proto-replace entities entities-Keyed (entity_not_found n m) n m
          (set_project project (Entity.to_proto (stamped_entity now e))) r h)
    ∙ go (e.name == n && project == m)
  where
    go :
        (b : Bool)
        → read_with Entity.from_proto (
            if b
            then ok (set_project project (Entity.to_proto (stamped_entity now e)))
            else get_proto (entity_not_found n m) n m r.entities)
          ≡ (if b then ok (stamped_entity now e) else get_entity r n m)
    go true = Entity.from_proto-to_proto_entity (stamped_entity now e) project
    go false = refl

entity_change-Known :
    (e : Entity) (project : String) (now : ℕ) (r r' : RegistryProto)
    → entity_change e project now r ≡ ok (some r')
    → Known project r
    → Known project r'
unfolding entity_change replace get_project_metadata
entity_change-Known e project now r r' made k =
    subst (Known project) (some-injective _ _ (ok-injective _ _ made)) k

get_entity-versioned :
    (version : String) (now : ℕ) (r : RegistryProto) (n m : String)
    → get_entity (versioned version now r) n m ≡ get_entity r n m
unfolding get_entity
get_entity-versioned version now r n m = refl

get_entity-removed :
    (r : RegistryProto) (n m a b : String)
    → IsValid r
    → get_entity (record r { entities = delete_first (matches a b) r.entities }) n m
      ≡ (if n == a && m == b then err (entity_not_found n m) else get_entity r n m)
unfolding get_entity
get_entity-removed r n m a b h =
    ap (read_with Entity.from_proto)
      (get_proto-removed entities entities-Keyed (entity_not_found n m) n m a b r h)
    ∙ go (n == a && m == b)
  where
    go :
        (c : Bool)
        → read_with Entity.from_proto (
            if c
            then err (entity_not_found n m)
            else get_proto (entity_not_found n m) n m r.entities)
          ≡ (if c then err (entity_not_found n m) else get_entity r n m)
    go true = refl
    go false = refl

module _ (env : Env) where
  -- `apply_entity` of an entity that has a name ends as its change of the message does.
  apply_entity-Ends :
      {Q : Unit {0} → State → Type 0} {E : Error → State → Type 0} (e : Entity) (project : String)
      (s : State)
      → e.name ≢ ""
      → Ends Q E
          (write env project (entity_change e project (env.clock s.readings)) true)
          (record s { readings = s.readings + 1 })
      → Ends Q E (apply_entity env e project true) s
  unfolding apply_entity
  apply_entity-Ends e project s named rest =
      lift-ok-Ends (Entity.is_valid e) tt _ s (is_valid-ok e named)
        (utcnow-bind-Ends env (λ now. write env project (entity_change e project now) true) s rest)

  -- An entity with a name is applied to a project with a name, from any state that satisfies the
  -- registry's invariant, the store's file there or not: the call returns, and `get_entity` then returns
  -- the entity with the timestamps that the call has set, whether or not it may use the cache.
  pub apply_entity-get_entity :
      (e : Entity) (project : String) (s : State)
      → e.name ≢ ""
      → project ≢ ""
      → StateValid s
      → (t : State) × (apply_entity env e project true s ≡ (ok tt, t))
        × ((allow_cache : Bool)
            → (reading env project allow_cache (λ r. get_entity r e.name project) t).0
              ≡ ok (stamped_entity (env.clock s.readings) e))
  unfolding entity_change
  apply_entity-get_entity e project s named project_named v =
      let (_, t, returned, wrote) = Ends-returns (apply_entity env e project true) s (
        apply_entity-Ends e project s named (
          write-Wrote env project (entity_change e project (env.clock s.readings)) _ project_named v
            λ r _. (_, refl))) in
      (
        t,
        returned,
        λ allow_cache.
            Wrote-reading env project (entity_change e project (env.clock s.readings)) allow_cache
              (λ r. get_entity r e.name project) _ t project_named
              (entity_change-Known e project (env.clock s.readings))
              (λ r r' version n h made.
                get_entity-versioned version n r' e.name project
                ∙ get_entity-entity_change e project e.name project (env.clock s.readings) r r' h
                    made
                ∙ rw (==-refl e.name, ==-refl project))
              wrote,
      )

  -- Where the cache and the store hold the same message, which satisfies the invariant and knows the
  -- project, and the entity and the project have names, `apply_entity` returns and the cache and the store
  -- hold a new message, on which `get_entity` returns the entity, with its timestamps set, under its name
  -- and project, and under any other what it did before.
  pub apply_entity-Settled :
      (r : RegistryProto) (e : Entity) (project : String) (s : State)
      → e.name ≢ ""
      → project ≢ ""
      → IsValid r
      → Known project r
      → Settled r s
      → (t : State) × (r' : RegistryProto) × (apply_entity env e project true s ≡ (ok tt, t))
        × Settled r' t
        × ((n m : String)
            → get_entity r' n m ≡ (
                if e.name == n && project == m
                then ok (stamped_entity (env.clock s.readings) e)
                else get_entity r n m))
  unfolding entity_change
  apply_entity-Settled r e project s named project_named h k settled =
      let (_, t, returned, (version, n, now_settled)) =
        Ends-returns (apply_entity env e project true) s (
          apply_entity-Ends e project s named (
            write-commits env r project (entity_change e project (env.clock s.readings))
              (record s { readings = s.readings + 1 }) project_named k
              (record { cached = settled.cached; stored = settled.stored }) _ refl)) in
      (
        t,
        _,
        returned,
        now_settled,
        λ a b.
            get_entity-versioned version n _ a b
            ∙ get_entity-entity_change e project a b (env.clock s.readings) r _ h refl,
      )

  -- Where the cache and the store hold the same message, which satisfies the invariant and knows the
  -- project, and the project has a name: if the message has no entity of the name in the project,
  -- `delete_entity` raises the exception that says so, and cache and store still hold the message;
  -- otherwise it returns, and they hold a new one, on which `get_entity` raises under that name and
  -- project, and does under any other what it did before.
  pub delete_entity-Settled :
      (r : RegistryProto) (name project : String) (s : State)
      → project ≢ ""
      → IsValid r
      → Known project r
      → Settled r s
      → ((find name project r.entities ≡ none)
          × ((t : State) × (delete_entity env name project true s
                ≡ (err (entity_not_found name project), t))
              × Settled r t))
        ⊎ ((p : EntityProto) × (find name project r.entities ≡ some p)
            × ((t : State) × (r' : RegistryProto) × (delete_entity env name project true s
                  ≡ (ok tt, t))
                × Settled r' t
                × ((n m : String)
                    → get_entity r' n m ≡ (
                        if n == name && m == project
                        then err (entity_not_found n m)
                        else get_entity r n m))))
  unfolding delete_entity
  delete_entity-Settled r name project s project_named h k settled =
      elim (Option-cases (find name project r.entities)) [
        | inl absent ↦
            let (_, t, raised, (same, still)) =
              Ends-raises (delete_entity env name project true) s (
                write-raises env r project change s project_named k settled true
                  (entity_not_found name project)
                  (ap changed (remove-none entities entities-Keyed name project r _ absent))) in
            inl (absent, (t, raised ∙ ap (λ e. (err e, t)) same, still))
        | inr (p, present) ↦
            let (_, t, returned, (version, n, now_settled)) =
              Ends-returns (delete_entity env name project true) s (
                write-commits env r project change s project_named k settled _
                  (ap changed (remove-some entities entities-Keyed name project r _ p present))) in
            inr (
              p,
              present,
              (
                t,
                _,
                returned,
                now_settled,
                λ a b.
                    get_entity-versioned version n _ a b ∙ get_entity-removed r a b name project h,
              ),
            )
      ]
    where
      change : RegistryProto → Result (Option RegistryProto)
      change r =
          changed (remove entities (matches name project) r (err (entity_not_found name project)))
