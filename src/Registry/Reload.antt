-- ===== src/Registry/Reload.antt =====
-- Changes that are cached and not committed, where the cache of the class `Registry`
-- (sdk/python/feast/infra/registry/registry.py) is filled again from the store.
use feast.Base.{
  String, Bool, true, false, ◌≡◌, ◌≢◌, refl, sym, subst, ap, ◌∙◌, ◌⊎◌, inl, inr, ◌&&◌, not, none,
  some, ok, Error, arith, ok-injective,
}
use mathlib.Core.Option.{some-injective, some-ne-none}
use feast.Registry.State.{RegistryProto, Env, State, pure, gets, ◌>>◌, cached_proto}
use feast.Registry.Cache.{
  get_project_metadata, is_expired, fetch, knows, used_or_fetched, get_registry_proto, prepare,
}
use feast.Registry.Writes.{refresh}
use feast.Registry.Ends.{Ends, Ends-if, Ends-bind, Ends-result, Ends-returns}
use feast.Registry.Settled.{Known, Settled, pure-Ends, gets-Ends, is_expired-Ends, fetch-Ends}
use feast.Registry.Prepared.{Known-none, prepare-reads}

module _ (env : Env) (r : RegistryProto) (project : String) (s : State) (h : project ≢ "")
    (k : Known project r) (stored : s.file ≡ some r) where
  -- A read that may not use the cache, or whose cache has expired, caches what the store holds.
  get_registry_proto-reloads :
      {E : Error → State → Type 0} (allow_cache : Bool)
      → (allow_cache ≡ false) ⊎ ((is_expired env s).0 ≡ ok true)
      → Ends
          (λ r' t. (r' ≡ r) × Settled r t)
          E
          (get_registry_proto env (some project) allow_cache)
          s
  unfolding get_registry_proto used_or_fetched
  get_registry_proto-reloads {E} allow_cache stale =
      Ends-bind (is_expired env) _ s
        (Ends-result (is_expired env) s
          (is_expired-Ends env {Q = λ _ t. t.file ≡ some r} s λ _ _. stored))
        λ expired t d.
          Ends-bind (gets (knows (some project))) _ t
            (gets-Ends {Q = λ _ u. u.file ≡ some r} (knows (some project)) t d.1)
            λ known u f.
              Ends-if (allow_cache && not expired && known) cached_proto (fetch env (some project))
                u (λ used. elim (not_used expired known d.0 used) [ ])
                λ _.
                  fetch-Ends env project u h (λ absent. elim (some-ne-none r (sym f ∙ absent)) [ ])
                    (λ r' v e _ _ fresh.
                      elim (Known-none project r k (
                        subst (λ m. get_project_metadata (some m) project ≡ none)
                          (sym (same u r' f e)) fresh)) [ ])
                    λ r' v e c w _. (
                      sym (same u r' f e),
                      record { cached = c ∙ ap some (sym (same u r' f e)); stored = w ∙ f },
                    )
    where
      same : (u : State) (r' : RegistryProto) → u.file ≡ some r → u.file ≡ some r' → r ≡ r'
      same u r' f e = some-injective r r' (sym f ∙ e)

      by_stale :
          (expired known : Bool)
          → (allow_cache ≡ false) ⊎ (expired ≡ true)
          → (allow_cache && not expired && known) ≡ true
          → ⊥
      by_stale expired known (inl refused) used = ground arith
      by_stale expired known (inr old) used = ground arith

      not_used :
          (expired known : Bool)
          → (is_expired env s).0 ≡ ok expired
          → (allow_cache && not expired && known) ≡ true
          → ⊥
      not_used expired known e used =
          by_stale expired known
            (elim stale [
              | inl refused ↦ inl refused
              | inr old ↦ inr (ok-injective expired true (sym e ∙ old))
            ])
            used

  -- Where the store holds a message that knows the project, and the project has a name, `refresh` of the
  -- project returns, and then the cache holds the stored message: every change that was cached and not
  -- committed is lost.
  pub refresh-Settled : (t : State) × (refresh env (some project) s ≡ (ok tt, t)) × Settled r t
  unfolding refresh
  refresh-Settled =
      let (_, t, returned, settled) =
        Ends-returns {Q = λ _ t. Settled r t}
          (do get_registry_proto env (some project) false; pure tt) s
          (Ends-bind (get_registry_proto env (some project) false) _ s
            (get_registry_proto-reloads false (inl refl)) λ r' t c. pure-Ends tt t c.1) in
      (t, returned, settled)

  -- Where the store holds a message that knows the project, the project has a name, and the cache has
  -- expired, the preparation for a change returns, and the cache holds the stored message: the changes
  -- of earlier calls that were not committed are lost.
  pub prepare-expired :
      (is_expired env s).0 ≡ ok true
      → (t : State) × (prepare env project s ≡ (ok r, t)) × Settled r t
  prepare-expired expired =
      let (r', t, returned, (same, settled)) =
        Ends-returns (prepare env project) s
          (prepare-reads env r project s h k (get_registry_proto-reloads true (inr expired))) in
      (t, returned ∙ ap (λ r'. (ok r', t)) same, settled)
