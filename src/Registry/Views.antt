-- ===== src/Registry/Views.antt =====
-- What `apply_feature_view` of sdk/python/feast/infra/registry/registry.py does to a settled registry: a
-- conflict of names, an unchanged view, a view that is stored and read back.
use feast.Base.{
  ℕ, ◌+◌, String, Bool, true, ◌≡◌, ◌≢◌, ap, ◌∙◌, Option, none, some, Result, ok, err, Error,
  string_eq, any, conflicting_feature_view_names,
}
use feast.Proto.{Proto, set_project, has_name}
use feast.Proto.Distinct.{find}
use feast.BaseFeatureView.{stamp}
use feast.FeatureView
use feast.FeatureView.{FeatureView, feature_view_eq}
use feast.FeatureView.Messages as FeatureViewMessages
use feast.FeatureView.Messages.{FeatureViewProto}
use feast.Registry.State.{RegistryProto, Env, State, lift, ◌>>=◌}
use feast.Registry.Writes.{Repeated, write}
use feast.Registry.FeatureViews.{
  AnyFeatureView, view, feature_views, apply_feature_view, ensure_valid, stamped, change_for,
  checked_change, check_conflicting_names, replace_unless_same, name_of,
}
use feast.Registry.Conflicts.{check_conflicting_names-classes}
use feast.Registry.Ends.{Ends, Ends-returns, Ends-raises}
use feast.Registry.Settled.{Known, Settled}
use feast.Registry.Written.{lift-ok-Ends, utcnow-bind-Ends, write-unchanged, write-raises}

-- A stored view that is equal is left alone; where none is there, the new one is added.
module _ {A B : Type 0} (field : Repeated B) (read : Proto B → Result A)
    (same : A → Result Bool) where
  replace_unless_same-same :
      (p : Proto B) (r : RegistryProto) (q : Proto B) (w : A)
      → find p.name p.project (field.get r) ≡ some q
      → read q ≡ ok w
      → same w ≡ ok true
      → replace_unless_same field read same p r ≡ ok none
  unfolding replace_unless_same
  replace_unless_same-same p r q w there got told = rw (there, got, told, replace_unless_same)

module _ (env : Env) where
  checked_change-clear :
      (v : AnyFeatureView) (change : RegistryProto → Result (Option RegistryProto))
      (r : RegistryProto)
      → check_conflicting_names v r ≡ ok tt
      → checked_change env v change r ≡ change r
  unfolding checked_change
  checked_change-clear v change r clear = rw (clear, checked_change)

  -- A valid view that can be written as a message is applied as its change of the stored message is.
  apply_feature_view-Ends :
      {Q : Unit {0} → State → Type 0} {E : Error → State → Type 0} (v : AnyFeatureView)
      (project : String) (change : RegistryProto → Result (Option RegistryProto)) (do_commit : Bool)
      (s : State)
      → ensure_valid v ≡ ok tt
      → change_for env project (stamped env (env.clock s.readings) v) ≡ ok change
      → Ends Q E
          (write env project (checked_change env v change) do_commit)
          (record s { readings = s.readings + 1 })
      → Ends Q E (apply_feature_view env v project do_commit) s
  unfolding apply_feature_view
  apply_feature_view-Ends v project change do_commit s valid written rest =
      lift-ok-Ends (ensure_valid v) tt _ s valid (
        utcnow-bind-Ends env
          (λ now. do
            change ← lift (change_for env project (stamped env now v))
            write env project (checked_change env v change) do_commit)
          s
          (lift-ok-Ends (change_for env project (stamped env (env.clock s.readings) v)) change
            (λ change. write env project (checked_change env v change) do_commit) _ written rest))

  -- Where the cache and the store hold the same message, which knows the project, and the project has a
  -- name: a view that is valid and can be written as a message is refused if a stream feature view of any
  -- project has its name, be it that very stream feature view. `apply_feature_view` raises the exception
  -- for conflicting names, and the cache and the store still hold the message.
  pub apply_feature_view-stream_conflict :
      (r : RegistryProto) (v : AnyFeatureView) (project : String)
      (change : RegistryProto → Result (Option RegistryProto)) (do_commit : Bool) (s : State)
      → project ≢ ""
      → Known project r
      → Settled r s
      → ensure_valid v ≡ ok tt
      → change_for env project (stamped env (env.clock s.readings) v) ≡ ok change
      → any (has_name (name_of v)) r.stream_feature_views ≡ true
      → (t : State) × (apply_feature_view env v project do_commit s
          ≡ (err (conflicting_feature_view_names (name_of v)), t))
        × Settled r t
  unfolding checked_change
  apply_feature_view-stream_conflict r v project change do_commit s h k settled valid written
        taken =
      let (e, t, raised, (same, still)) =
        Ends-raises (apply_feature_view env v project do_commit) s (
          apply_feature_view-Ends v project change do_commit s valid written (
            write-raises env r project (checked_change env v change)
              (record s { readings = s.readings + 1 }) h k
              (record { cached = settled.cached; stored = settled.stored }) do_commit
              (conflicting_feature_view_names (name_of v)) refused)) in
      (t, raised ∙ ap (λ e. (err e, t)) same, still)
    where
      conflict : check_conflicting_names v r ≡ err (conflicting_feature_view_names (name_of v))
      conflict = check_conflicting_names-classes v r ∙ rw taken

      refused : checked_change env v change r ≡ err (conflicting_feature_view_names (name_of v))
      refused = rw (conflict, checked_change)

  stamped_view : ℕ → FeatureView → FeatureView
  unfolding stamp
  stamped_view now v = record v { base = stamp now v.base }

  view_change :
      String → FeatureView → FeatureViewProto → RegistryProto → Result (Option RegistryProto)
  view_change project v p =
      replace_unless_same feature_views FeatureViewMessages.from_proto (λ w. feature_view_eq w v)
        (set_project project p)

  change_for-view :
      (project : String) (now : ℕ) (v : FeatureView) (p : FeatureViewProto)
      → FeatureViewMessages.to_proto (stamped_view now v) ≡ ok p
      → change_for env project (stamped env now (view v))
        ≡ ok (view_change project (stamped_view now v) p)
  unfolding change_for stamped stamped_view view_change
  change_for-view project now v p written = rw (written, change_for)

  -- Where the cache and the store hold the same message, which knows the project, and the project has a
  -- name: a valid feature view that the check of names admits, that can be written as a message, and that
  -- equals the one read from the stored message of its name and project is not written again. The call
  -- returns, and the cache and the store still hold the message, with the old timestamps.
  pub apply_feature_view-unchanged :
      (r : RegistryProto) (v w : FeatureView) (p q : FeatureViewProto) (project : String)
      (do_commit : Bool) (s : State)
      → project ≢ ""
      → Known project r
      → Settled r s
      → FeatureView.ensure_valid v ≡ ok tt
      → check_conflicting_names (view v) r ≡ ok tt
      → FeatureViewMessages.to_proto (record v { base = stamp (env.clock s.readings) v.base })
        ≡ ok p
      → find p.name project r.feature_views ≡ some q
      → FeatureViewMessages.from_proto q ≡ ok w
      → feature_view_eq w (record v { base = stamp (env.clock s.readings) v.base }) ≡ ok true
      → (t : State) × (apply_feature_view env (view v) project do_commit s ≡ (ok tt, t))
        × Settled r t
  unfolding checked_change replace_unless_same stamped_view view_change ensure_valid
  apply_feature_view-unchanged r v w p q project do_commit s h k settled valid clear written there
        read same =
      let (_, t, returned, still) =
        Ends-returns (apply_feature_view env (view v) project do_commit) s (
          apply_feature_view-Ends (view v) project
            (view_change project (stamped_view (env.clock s.readings) v) p) do_commit s valid
            (change_for-view project (env.clock s.readings) v p written)
            (write-unchanged env r project
              (checked_change env (view v)
                (view_change project (stamped_view (env.clock s.readings) v) p))
              (record s { readings = s.readings + 1 }) h k
              (record { cached = settled.cached; stored = settled.stored }) do_commit kept)) in
      (t, returned, still)
    where
      kept :
          checked_change env
            (view v)
            (view_change project (stamped_view (env.clock s.readings) v) p)
            r
          ≡ ok none
      kept =
          checked_change-clear (view v)
            (view_change project (stamped_view (env.clock s.readings) v) p) r clear
          ∙ replace_unless_same-same feature_views FeatureViewMessages.from_proto
              (λ u. feature_view_eq u (stamped_view (env.clock s.readings) v))
              (set_project project p) r q w there read same
