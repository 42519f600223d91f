-- ===== src/Diff/Registry.antt =====
-- The application of a difference to the registry: `apply_diff_to_registry` of
-- sdk/python/feast/diff/registry_diff.py.
use feast.Base.{String, Bool, false, List, [], ◌∷◌, Option, none, some, attribute_error}
use feast.Entity.{Entity}
use feast.DataSource.{DataSource}
use feast.FeatureService.{FeatureService}
use feast.Diff.{TransitionType, create, delete, update, unchanged, unknown, PropertyDiff}
use feast.Registry.State.{Env, Action, ◌>>◌, pure, raise, when, utcnow, commit}
use feast.Registry.Cache.{prepare}
use feast.Registry.Writes.{
  apply_entity, delete_entity, apply_data_source, delete_data_source, apply_feature_service,
  delete_feature_service,
}
use feast.Registry.FeatureViews.{AnyFeatureView, name_of, apply_feature_view, delete_feature_view}

-- `FeastObjectDiff`, by the class of its objects.
pub record ObjectDiff (A : Type 0) : Type 0 where
  pub name : String
  pub current_feast_object : Option A
  pub new_feast_object : Option A
  pub feast_object_property_diffs : List PropertyDiff
  pub transition_type : TransitionType

-- `feast_object_type`, and the rest. The four kinds of feature views, which are treated alike, are one
-- constructor.
pub data FeastObjectDiff : Type 0 where
  data_source_diff : ObjectDiff DataSource → FeastObjectDiff
  entity_diff : ObjectDiff Entity → FeastObjectDiff
  feature_view_diff : ObjectDiff AnyFeatureView → FeastObjectDiff
  feature_service_diff : ObjectDiff FeatureService → FeastObjectDiff

-- How the registry's methods are called on the objects of one class. `missing` is what `apply` does with
-- `None` for an object.
pub record Methods (A : Type 0) : Type 0 where
  pub object_name : A → String
  pub apply : A → Action (Unit {0})
  pub missing : Action (Unit {0})
  pub drop : String → Action (Unit {0})

-- The turn of the loop for a difference of objects of one class.
unfoldable pub drop_object : {A : Type 0} → Methods A → Option A → Action (Unit {0})
unfolding raise
drop_object methods none = raise attribute_error
drop_object methods (some o) = methods.drop (methods.object_name o)

unfoldable pub apply_object : {A : Type 0} → Methods A → Option A → Action (Unit {0})
apply_object methods none = methods.missing
apply_object methods (some o) = methods.apply o

unfoldable pub apply_transition :
    {A : Type 0} → Methods A → TransitionType → ObjectDiff A → Action (Unit {0})
unfolding drop_object apply_object pure
apply_transition methods delete d = drop_object methods d.current_feast_object
apply_transition methods create d = apply_object methods d.new_feast_object
apply_transition methods update d = apply_object methods d.new_feast_object
apply_transition methods unknown d = pure tt
apply_transition methods unchanged d = pure tt

unfoldable pub apply_object_diff : {A : Type 0} → Methods A → ObjectDiff A → Action (Unit {0})
unfolding apply_transition
apply_object_diff methods d = apply_transition methods d.transition_type d

module _ (env : Env) (project : String) where
  -- The registry is prepared before the source is looked at.
  abbrev pub data_source_methods : Methods DataSource
  data_source_methods = record {
    object_name = λ o. o.name;
    apply = λ o. apply_data_source env o project false;
    missing = (do prepare env project; raise attribute_error);
    drop = λ n. delete_data_source env n project false;
  }

  abbrev pub entity_methods : Methods Entity
  entity_methods = record {
    object_name = λ o. o.name;
    apply = λ o. apply_entity env o project false;
    missing = raise attribute_error;
    drop = λ n. delete_entity env n project false;
  }

  abbrev pub feature_view_methods : Methods AnyFeatureView
  feature_view_methods = record {
    object_name = name_of;
    apply = λ o. apply_feature_view env o project false;
    missing = raise attribute_error;
    drop = λ n. delete_feature_view env n project false;
  }

  -- `apply_feature_service` asks for the time before the service is looked at.
  abbrev pub feature_service_methods : Methods FeatureService
  feature_service_methods = record {
    object_name = λ o. o.name;
    apply = λ o. apply_feature_service env o project false;
    missing = (do utcnow env; raise attribute_error);
    drop = λ n. delete_feature_service env n project false;
  }

  unfoldable pub apply_feast_object_diff : FeastObjectDiff → Action (Unit {0})
  unfolding apply_object_diff
  apply_feast_object_diff (data_source_diff d) = apply_object_diff data_source_methods d
  apply_feast_object_diff (entity_diff d) = apply_object_diff entity_methods d
  apply_feast_object_diff (feature_view_diff d) = apply_object_diff feature_view_methods d
  apply_feast_object_diff (feature_service_diff d) = apply_object_diff feature_service_methods d

  unfoldable pub apply_diffs : List FeastObjectDiff → Action (Unit {0})
  unfolding apply_feast_object_diff
  apply_diffs [] = pure tt
  apply_diffs (d ∷ ds) = do apply_feast_object_diff d; apply_diffs ds

  unfoldable pub apply_diff_to_registry : List FeastObjectDiff → Bool → Action (Unit {0})
  unfolding apply_diffs commit
  apply_diff_to_registry ds do_commit = do apply_diffs ds; when do_commit (commit env)
