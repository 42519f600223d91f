-- ===== src/Registry/Valid/Views.antt =====
-- The methods of the class `Registry` (sdk/python/feast/infra/registry/registry.py) on feature views
-- keep the invariant.
use feast.Base.{ℕ, String, Bool, Option, Result, find_first, feature_view_not_found}
use feast.Proto.{matches, set_project}
use feast.FeatureView.Messages as FeatureViewMessages
use feast.StreamFeatureView.Messages as StreamMessages
use feast.OnDemandFeatureView
use feast.RequestFeatureView
use feast.Registry.State.{RegistryProto, Env}
use feast.Registry.Writes.{replace}
use feast.Registry.FeatureViews.{
  AnyFeatureView, stream_view, view, on_demand_view, request_view, ensure_valid, stamped,
  change_for, checked_change, check_conflicting_names, apply_feature_view, removed_view,
  delete_feature_view, apply_materialization, materialized, materialized_stream, feature_views,
  stream_feature_views, on_demand_feature_views, request_feature_views,
}
use feast.Registry.Valid.{
  IsValid, ValidIfAny, Outcome, Keeps, Anything, Keeps-raise, Keeps-lift, Keeps-bind, Keeps-elim,
  cached_proto-Keeps, put_cached-Keeps, utcnow-Keeps, when-commit-Keeps,
}
use feast.Registry.Valid.Prepared.{prepare-Keeps}
use feast.Registry.Valid.Fields.{
  feature_views-Keyed, on_demand_feature_views-Keyed, request_feature_views-Keyed,
  stream_feature_views-Keyed, replace-IsValid, remove-Outcome, replace_unless_same-Outcome,
  Outcome-result,
}
use feast.Registry.Valid.Operations.{Sound, write-Keeps, changed-Outcome, Keeps-call}

module _ (env : Env) where
  open env use {dill}

  change_for-Sound :
      (project : String) (v : AnyFeatureView) → Outcome Sound (change_for env project v)
  unfolding change_for
  change_for-Sound project (stream_view v) =
      Outcome-result Sound (StreamMessages.to_proto dill v) _ λ p _ r h.
        replace_unless_same-Outcome stream_feature_views stream_feature_views-Keyed r h _ _ _
  change_for-Sound project (view v) =
      Outcome-result Sound (FeatureViewMessages.to_proto v) _
        λ p _ r h. replace_unless_same-Outcome feature_views feature_views-Keyed r h _ _ _
  change_for-Sound project (on_demand_view v) =
      Outcome-result Sound (OnDemandFeatureView.to_proto dill v) _ λ p _ r h.
        replace_unless_same-Outcome on_demand_feature_views on_demand_feature_views-Keyed r h _ _ _
  change_for-Sound project (request_view v) =
      Outcome-result Sound (RequestFeatureView.to_proto v) _ λ p _ r h.
        replace_unless_same-Outcome request_feature_views request_feature_views-Keyed r h _ _ _

  checked_change-Sound :
      (v : AnyFeatureView) (change : RegistryProto → Result (Option RegistryProto))
      → Sound change
      → Sound (checked_change env v change)
  unfolding checked_change
  checked_change-Sound v change sound r h =
      Outcome-result ValidIfAny (check_conflicting_names v r) _ λ _ _. sound r h

  pub apply_feature_view-Keeps :
      (v : AnyFeatureView) (project : String) (do_commit : Bool)
      → Keeps Anything (apply_feature_view env v project do_commit)
  unfolding apply_feature_view
  apply_feature_view-Keeps v project do_commit = Keeps-bind _ _ (Keeps-call (ensure_valid v)) λ _ _.
      Keeps-bind _ _ (utcnow-Keeps env) λ now _.
        Keeps-bind _ _
          (Keeps-lift (change_for env project (stamped env now v))
            (change_for-Sound project (stamped env now v)))
          λ change sound.
            write-Keeps env project (checked_change env v change) do_commit
              (checked_change-Sound v change sound)

  removed_view-Outcome :
      (name project : String) (r : RegistryProto)
      → IsValid r
      → Outcome IsValid (removed_view env name project r)
  unfolding removed_view
  removed_view-Outcome name project r h =
      remove-Outcome feature_views feature_views-Keyed r h name project _ (
        remove-Outcome request_feature_views request_feature_views-Keyed r h name project _ (
          remove-Outcome on_demand_feature_views on_demand_feature_views-Keyed r h name project _
            (remove-Outcome stream_feature_views stream_feature_views-Keyed r h name project _ tt)))

  pub delete_feature_view-Keeps :
      (name project : String) (do_commit : Bool)
      → Keeps Anything (delete_feature_view env name project do_commit)
  unfolding delete_feature_view
  delete_feature_view-Keeps name project do_commit =
      write-Keeps env project _ do_commit
        λ r h. changed-Outcome _ (removed_view-Outcome name project r h)

  pub apply_materialization-Keeps :
      (name project : String) (start_date end_date : ℕ) (do_commit : Bool)
      → Keeps Anything (apply_materialization env name project start_date end_date do_commit)
  unfolding apply_materialization
  apply_materialization-Keeps name project start_date end_date do_commit =
      Keeps-bind _ _ (prepare-Keeps env project) λ _ _. Keeps-bind _ _ cached_proto-Keeps λ r h.
        Keeps-elim (find_first (matches name project) r.feature_views) _ _
          (λ _.
            Keeps-elim (find_first (matches name project) r.stream_feature_views) _ _
              (λ _. Keeps-raise (feature_view_not_found name project))
              λ p _. Keeps-bind _ _ (Keeps-call (StreamMessages.from_proto dill p)) λ v _.
                Keeps-bind _ _ (utcnow-Keeps env) λ now _.
                  Keeps-bind _ _
                    (Keeps-call (
                      StreamMessages.to_proto dill
                        (materialized_stream env start_date end_date now v)))
                    λ q _.
                      Keeps-bind _ _
                        (put_cached-Keeps (replace stream_feature_views (set_project project q) r) (
                          replace-IsValid stream_feature_views stream_feature_views-Keyed r h
                            (set_project project q)))
                        λ _ _. when-commit-Keeps env do_commit)
          λ p _. Keeps-bind _ _ (Keeps-call (FeatureViewMessages.from_proto p)) λ v _.
            Keeps-bind _ _ (utcnow-Keeps env) λ now _.
              Keeps-bind _ _
                (Keeps-call
                  (FeatureViewMessages.to_proto (materialized env start_date end_date now v)))
                λ q _.
                  Keeps-bind _ _
                    (put_cached-Keeps (replace feature_views (set_project project q) r) (
                      replace-IsValid feature_views feature_views-Keyed r h
                        (set_project project q)))
                    λ _ _. when-commit-Keeps env do_commit
