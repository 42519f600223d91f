-- ===== src/Registry/Conflicts.antt =====
-- The check of names of `apply_feature_view` (sdk/python/feast/infra/registry/registry.py): which classes
-- of feature views it lets pass.
use feast.Base.{
  String, Bool, true, false, ◌≡◌, refl, ap, ◌∙◌, none, some, List, [], ◌∷◌, ok, err, if◌then◌else◌,
  ◌==◌, string_eq, arith, any, conflicting_feature_view_names,
}
use feast.Base.Dict.{Dict, lookup, insert, lookup-insert}
use feast.Proto.{Proto, has_name}
use feast.Registry.State.{RegistryProto}
use feast.Registry.FeatureViews.{
  AnyFeatureView, stream_view, view, on_demand_view, request_view, ProtoClass, feature_view_proto,
  stream_proto, on_demand_proto, request_proto, proto_class, proto_class_eq, name_of, add_names,
  existing_names, check_conflicting_names, verdict,
}

-- The class that the check finds under a name.
lookup-add_names :
    {B : Type 0} (n : String) (c : ProtoClass) (ps : List (Proto B)) (d : Dict String ProtoClass)
    → lookup n (add_names c ps d) ≡ (if any (has_name n) ps then some c else lookup n d)
unfolding add_names any has_name
lookup-add_names n c [] d = refl
lookup-add_names n c (p ∷ ps) d =
    ground (arith, lookup-add_names n c ps (insert p.name c d), lookup-insert n p.name c d)

not_stream : (v : AnyFeatureView) → (stream_proto == proto_class v) ≡ false
unfolding proto_class proto_class_eq
not_stream (stream_view v) = refl
not_stream (view v) = refl
not_stream (on_demand_view v) = refl
not_stream (request_view v) = refl

-- What `_check_conflicting_feature_view_names` should say of a view, and does: the views of all projects
-- count; a stream feature view under the name excludes every view, a stream feature view too, since
-- its class is taken for `FeatureView`'s; otherwise the first of a request feature view, a feature view
-- and an on-demand one that has the name admits its own class alone.
pub check_conflicting_names-classes :
    (v : AnyFeatureView) (r : RegistryProto)
    → check_conflicting_names v r ≡ (
        if any (has_name (name_of v)) r.stream_feature_views
        then err (conflicting_feature_view_names (name_of v))
        else if any (has_name (name_of v)) r.request_feature_views
        then (if request_proto == proto_class v
            then ok tt
            else err (conflicting_feature_view_names (name_of v)))
        else if any (has_name (name_of v)) r.feature_views
        then (if feature_view_proto == proto_class v
            then ok tt
            else err (conflicting_feature_view_names (name_of v)))
        else if any (has_name (name_of v)) r.on_demand_feature_views
        then (if on_demand_proto == proto_class v
            then ok tt
            else err (conflicting_feature_view_names (name_of v)))
        else ok tt)
unfolding check_conflicting_names existing_names
check_conflicting_names-classes v r =
    ap (verdict v) names
    ∙ go (any (has_name (name_of v)) r.stream_feature_views)
        (any (has_name (name_of v)) r.request_feature_views)
        (any (has_name (name_of v)) r.feature_views)
        (any (has_name (name_of v)) r.on_demand_feature_views)
  where
    names : lookup (name_of v) (existing_names r) ≡ (
        if any (has_name (name_of v)) r.stream_feature_views
        then some stream_proto
        else if any (has_name (name_of v)) r.request_feature_views
        then some request_proto
        else if any (has_name (name_of v)) r.feature_views
        then some feature_view_proto
        else if any (has_name (name_of v)) r.on_demand_feature_views
        then some on_demand_proto
        else none)
    names = rw (
      lookup-add_names (name_of v) stream_proto r.stream_feature_views,
      lookup-add_names (name_of v) request_proto r.request_feature_views,
      lookup-add_names (name_of v) feature_view_proto r.feature_views,
      lookup-add_names (name_of v) on_demand_proto r.on_demand_feature_views,
    )

    go :
        (a b c d : Bool)
        → verdict v (
            if a
            then some stream_proto
            else if b
            then some request_proto
            else if c
            then some feature_view_proto
            else if d
            then some on_demand_proto
            else none)
          ≡ (if a
              then err (conflicting_feature_view_names (name_of v))
              else if b
              then (if request_proto == proto_class v
                  then ok tt
                  else err (conflicting_feature_view_names (name_of v)))
              else if c
              then (if feature_view_proto == proto_class v
                  then ok tt
                  else err (conflicting_feature_view_names (name_of v)))
              else if d
              then (if on_demand_proto == proto_class v
                  then ok tt
                  else err (conflicting_feature_view_names (name_of v)))
              else ok tt)
    go true b c d = rw (not_stream v)
    go false true c d = refl
    go false false true d = refl
    go false false false true = refl
    go false false false false = refl
