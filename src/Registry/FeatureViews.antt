-- ===== src/Registry/FeatureViews.antt =====
-- The methods of the class `Registry` of sdk/python/feast/infra/registry/registry.py on feature views:
-- `apply_feature_view`, `delete_feature_view`, `apply_materialization`, and the check of names.
use feast.Base.{
  ℕ, String, Bool, Option, none, some, List, [], ◌∷◌, ◌++◌, Result, ok, err, if◌then◌else◌, ◌==◌,
  string_eq, Eq, find_first, feature_view_not_found, conflicting_feature_view_names,
}
use feast.Base.Dict.{Dict, insert, lookup}
use feast.Proto.{Proto, matches, set_project}
use feast.BaseFeatureView
use feast.BaseFeatureView.{BaseFeatureView, stamp}
use feast.FeatureView
use feast.FeatureView.{FeatureView, feature_view_eq}
use feast.FeatureView.Messages as FeatureViewMessages
use feast.StreamFeatureView.{StreamFeatureView, stream_feature_view_eq}
use feast.StreamFeatureView.Messages as StreamMessages
use feast.OnDemandFeatureView
use feast.OnDemandFeatureView.{OnDemandFeatureView, on_demand_feature_view_eq}
use feast.RequestFeatureView
use feast.RequestFeatureView.{RequestFeatureView, request_feature_view_eq}
use feast.Registry.State.{
  RegistryProto, Env, Action, raise, lift, ◌>>=◌, ◌>>◌, when, cached_proto, put_cached, utcnow,
  commit,
}
use feast.Registry.Cache.{prepare}
use feast.Registry.Writes.{Repeated, replace, remove, write, changed}

-- A feature view of any of the four classes.
pub data AnyFeatureView : Type 0 where
  stream_view : StreamFeatureView → AnyFeatureView
  view : FeatureView → AnyFeatureView
  on_demand_view : OnDemandFeatureView → AnyFeatureView
  request_view : RequestFeatureView → AnyFeatureView

-- The classes of the messages.
pub data ProtoClass : Type 0 where
  feature_view_proto stream_proto on_demand_proto request_proto : ProtoClass

ProtoClass-discrete : Discrete ProtoClass
ProtoClass-discrete = hlevel

instance unfoldable pub proto_class_eq : Eq ProtoClass
unfolding ProtoClass-discrete
proto_class_eq = record { dec = ProtoClass-discrete }

-- `feature_view.proto_class`. `StreamFeatureView` does not define it, and inherits `FeatureView`'s.
unfoldable pub proto_class : AnyFeatureView → ProtoClass
proto_class (stream_view v) = feature_view_proto
proto_class (view v) = feature_view_proto
proto_class (on_demand_view v) = on_demand_proto
proto_class (request_view v) = request_proto

unfoldable pub name_of : AnyFeatureView → String
name_of (stream_view v) = v.name
name_of (view v) = v.name
name_of (on_demand_view v) = v.name
name_of (request_view v) = v.name

-- `{**d, **{fv.spec.name: fv for fv in ps}}`, with the class of each message for the message.
unfoldable pub add_names :
    {B : Type 0} → ProtoClass → List (Proto B) → Dict String ProtoClass → Dict String ProtoClass
unfolding insert
add_names c [] d = d
add_names c (p ∷ ps) d = add_names c ps (insert p.name c d)

-- `_existing_feature_view_names_to_fvs`: the names of all projects.
unfoldable pub existing_names : RegistryProto → Dict String ProtoClass
unfolding add_names
existing_names r = add_names stream_proto r.stream_feature_views (
    add_names request_proto r.request_feature_views (
      add_names feature_view_proto r.feature_views
        (add_names on_demand_proto r.on_demand_feature_views [])))

-- What the check says of a view, by the class that is there under its name.
abbrev pub verdict : AnyFeatureView → Option ProtoClass → Result (Unit {0})
verdict v none = ok tt
verdict v (some c) =
    if c == proto_class v then ok tt else err (conflicting_feature_view_names (name_of v))

-- `_check_conflicting_feature_view_names`
unfoldable pub check_conflicting_names : AnyFeatureView → RegistryProto → Result (Unit {0})
unfolding existing_names lookup name_of
check_conflicting_names v r = verdict v (lookup (name_of v) (existing_names r))

abbrev pub feature_views : Repeated FeatureViewMessages.FeatureViewBody
feature_views = record { get = λ r. r.feature_views; put = λ ps r. record r { feature_views = ps } }

abbrev pub stream_feature_views : Repeated StreamMessages.StreamFeatureViewBody
stream_feature_views = record {
  get = λ r. r.stream_feature_views;
  put = λ ps r. record r { stream_feature_views = ps };
}

abbrev pub on_demand_feature_views : Repeated OnDemandFeatureView.OnDemandFeatureViewBody
on_demand_feature_views = record {
  get = λ r. r.on_demand_feature_views;
  put = λ ps r. record r { on_demand_feature_views = ps };
}

abbrev pub request_feature_views : Repeated RequestFeatureView.RequestFeatureViewBody
request_feature_views = record {
  get = λ r. r.request_feature_views;
  put = λ ps r. record r { request_feature_views = ps };
}

-- The loop of `apply_feature_view` over the views of the same class: a view that is equal to the one
-- stored is left alone, which is `none`; any other takes its place.
unfoldable pub replace_unless_same :
    {A B : Type 0}
    → Repeated B
    → (Proto B → Result A)
    → (A → Result Bool)
    → Proto B
    → RegistryProto
    → Result (Option RegistryProto)
unfolding find_first matches replace
replace_unless_same field read same proto r =
    elim (find_first (matches proto.name proto.project) (field.get r)) [
      | none ↦ ok (some (replace field proto r))
      | some existing ↦ elim (read existing) [
        | err e ↦ err e
        | ok v ↦ elim (same v) [
          | err e ↦ err e
          | ok b ↦ ok (if b then none else some (replace field proto r))
        ]
      ]
    ]

-- `ensure_valid` of the class.
unfoldable pub ensure_valid : AnyFeatureView → Result (Unit {0})
ensure_valid (stream_view v) = FeatureView.ensure_valid v.view
ensure_valid (view v) = FeatureView.ensure_valid v
ensure_valid (on_demand_view v) = BaseFeatureView.ensure_valid v.base
ensure_valid (request_view v) = BaseFeatureView.ensure_valid v.base

module _ (env : Env) where
  open env use {dill}

  -- What `apply_feature_view` does to the registry's message, for a view that has been stamped, once
  -- the view has been written as a message.
  unfoldable pub change_for :
      String → AnyFeatureView → Result (RegistryProto → Result (Option RegistryProto))
  change_for project (stream_view v) = elim (StreamMessages.to_proto dill v) [
    | err e ↦ err e
    | ok p ↦ ok (
        replace_unless_same stream_feature_views (StreamMessages.from_proto dill)
          (λ w. stream_feature_view_eq w v) (set_project project p))
  ]
  change_for project (view v) = elim (FeatureViewMessages.to_proto v) [
    | err e ↦ err e
    | ok p ↦ ok (
        replace_unless_same feature_views FeatureViewMessages.from_proto (λ w. feature_view_eq w v)
          (set_project project p))
  ]
  change_for project (on_demand_view v) = elim (OnDemandFeatureView.to_proto dill v) [
    | err e ↦ err e
    | ok p ↦ ok (
        replace_unless_same on_demand_feature_views (OnDemandFeatureView.from_proto dill)
          (λ w. on_demand_feature_view_eq w v) (set_project project p))
  ]
  change_for project (request_view v) = elim (RequestFeatureView.to_proto v) [
    | err e ↦ err e
    | ok p ↦ ok (
        replace_unless_same request_feature_views RequestFeatureView.from_proto
          (λ w. request_feature_view_eq w v) (set_project project p))
  ]

  unfoldable pub stamped : ℕ → AnyFeatureView → AnyFeatureView
  unfolding stamp
  stamped now (stream_view v) =
      let fv = v.view in stream_view (record v { view = record fv { base = stamp now fv.base } })
  stamped now (view v) = view (record v { base = stamp now v.base })
  stamped now (on_demand_view v) = on_demand_view (record v { base = stamp now v.base })
  stamped now (request_view v) = request_view (record v { base = stamp now v.base })

  -- The change, behind the check of names.
  unfoldable pub checked_change :
      AnyFeatureView
      → (RegistryProto → Result (Option RegistryProto))
      → RegistryProto
      → Result (Option RegistryProto)
  unfolding check_conflicting_names
  checked_change v change r = elim (check_conflicting_names v r) [ err e ↦ err e | ok _ ↦ change r ]

  -- `Registry.apply_feature_view`
  unfoldable pub apply_feature_view : AnyFeatureView → String → Bool → Action (Unit {0})
  unfolding ensure_valid utcnow stamped change_for checked_change write
  apply_feature_view v project do_commit = do
    lift (ensure_valid v)
    now ← utcnow env
    change ← lift (change_for project (stamped now v))
    write env project (checked_change v change) do_commit

  -- `Registry.delete_feature_view`: the first list that has the view gives it up.
  unfoldable pub removed_view : String → String → RegistryProto → Result RegistryProto
  unfolding remove
  removed_view name project r = remove feature_views (matches name project) r (
      remove request_feature_views (matches name project) r (
        remove on_demand_feature_views (matches name project) r (
          remove stream_feature_views (matches name project) r
            (err (feature_view_not_found name project)))))

  unfoldable pub delete_feature_view : String → String → Bool → Action (Unit {0})
  unfolding removed_view write
  delete_feature_view name project do_commit =
      write env project (λ r. changed (removed_view name project r)) do_commit

  -- A view with one more interval, updated at `now`.
  unfoldable pub materialized : ℕ → ℕ → ℕ → FeatureView → FeatureView
  materialized start_date end_date now v = record v {
    base = record (v.base) { last_updated_timestamp = some now };
    materialization_intervals = v.materialization_intervals ++ (start_date, end_date) ∷ [];
  }

  unfoldable pub materialized_stream : ℕ → ℕ → ℕ → StreamFeatureView → StreamFeatureView
  unfolding materialized
  materialized_stream start_date end_date now v = record v {
    view = materialized start_date end_date now v.view;
  }

  -- `Registry.apply_materialization`, on the name of the feature view.
  unfoldable pub apply_materialization : String → String → ℕ → ℕ → Bool → Action (Unit {0})
  unfolding prepare cached_proto find_first matches replace put_cached commit utcnow
  apply_materialization name project start_date end_date do_commit = do
    prepare env project
    r ← cached_proto
    elim (find_first (matches name project) r.feature_views) [
      | some p ↦ do
        v ← lift (FeatureViewMessages.from_proto p)
        now ← utcnow env
        q ← lift (FeatureViewMessages.to_proto (materialized start_date end_date now v))
        put_cached (replace feature_views (set_project project q) r)
        when do_commit (commit env)
      | none ↦ elim (find_first (matches name project) r.stream_feature_views) [
        | some p ↦ do
          v ← lift (StreamMessages.from_proto dill p)
          now ← utcnow env
          q ← lift (StreamMessages.to_proto dill (materialized_stream start_date end_date now v))
          put_cached (replace stream_feature_views (set_project project q) r)
          when do_commit (commit env)
        | none ↦ raise (feature_view_not_found name project)
      ]
    ]
