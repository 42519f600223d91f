-- ===== src/Diff/Tests.antt =====
-- The comparison of small infrastructures, the application of a difference to a registry, and the
-- theorems on them at these values.
use feast.Base.{◌≡◌, refl, List, [], ◌∷◌, none, some, ok, if◌then◌else◌}
use feast.Infra.{sqlite_table, datastore_table, InfraProto, sqlite_class, class_of}
use feast.Samples.{driver, trips}
use feast.Diff.{create, delete, update, unchanged}
use feast.Diff.Registry.{FeastObjectDiff, data_source_diff, entity_diff}
use feast.Diff.Infra.{
  InfraObjectDiff, diff_infra_protos, diff_between, update_infra, datastores, dynamodbs, sqlites,
}
use feast.Base.{any, ◌&&◌, not, ◌==◌, string_eq, String, Bool}
use feast.Diff.Registry.{ObjectDiff}
use feast.Diff.Tagging.{Objects, plain, diff_objects}
use feast.Diff.Partition.{diff_objects-names, creates, deletes, compares}
use feast.Diff.Update.{differs, diff_between-differs}
use feast.Diff.ByKind.{calls_by_kind, diff_infra_protos-update}

abbrev before : InfraProto
before = record {
  infra_objects =
      record {
        infra_object_class_type = sqlite_class;
        infra_object = sqlite_table "old.db" "rides_stats";
      }
      ∷ [];
}

abbrev after : InfraProto
after = record {
  infra_objects =
      record {
        infra_object_class_type = sqlite_class;
        infra_object = sqlite_table "new.db" "rides_stats";
      }
      ∷ record {
        infra_object_class_type = sqlite_class;
        infra_object = sqlite_table "new.db" "rides_trips";
      }
      ∷ [];
}

diff_infra_protos-update_example :
    (ds : List InfraObjectDiff) × (diff_infra_protos before after ≡ ok ds)
    × (update_infra ds
        ≡ (calls_by_kind (datastores ∷ dynamodbs ∷ sqlites ∷ []) before after, ok tt))
diff_infra_protos-update_example = diff_infra_protos-update before after

diff_between-differs_example :
    (d : InfraObjectDiff) × (diff_between
        (datastore_table "rides" "stats" none none)
        (datastore_table "trips" "stats" none (some "eu"))
        "datastore table"
      ≡ ok d)
    × (d.current_infra_object ≡ some (datastore_table "rides" "stats" none none))
    × (d.new_infra_object ≡ some (datastore_table "trips" "stats" none (some "eu")))
    × (d.transition_type ≡ (
        if differs
          (datastore_table "rides" "stats" none none)
          (datastore_table "trips" "stats" none (some "eu"))
        then update
        else unchanged))
unfolding class_of
diff_between-differs_example =
    diff_between-differs (datastore_table "rides" "stats" none none)
      (datastore_table "trips" "stats" none (some "eu")) "datastore table" refl

-- A new source, and an entity that is gone.
abbrev changes : List FeastObjectDiff
changes =
    data_source_diff (record {
      name = "trips";
      current_feast_object = none;
      new_feast_object = some trips;
      feast_object_property_diffs = [];
      transition_type = create;
    })
    ∷ entity_diff (record {
      name = "driver";
      current_feast_object = some driver;
      new_feast_object = none;
      feast_object_property_diffs = [];
      transition_type = delete;
    })
    ∷ []

-- Objects that are a name and a description.
abbrev named_texts : Objects (String × String)
named_texts = record {
  name_of = λ o. o.0;
  fields = λ o. ok (("name", plain (some o.0)) ∷ ("description", plain (some o.1)) ∷ []);
  same = λ o p. ok (o.0 == p.0 && o.1 == p.1);
}

abbrev existing : List (String × String)
existing = ("driver", "") ∷ ("rider", "") ∷ []

abbrev desired : List (String × String)
desired = ("driver", "who drives") ∷ ("trip", "") ∷ []

abbrev listed_in : List (String × String) → String → Bool
listed_in xs n = any (λ (o : String × String). o.0 == n) xs && not (n == "")

diff_objects-names_example :
    (ds : List (ObjectDiff (String × String))) × (diff_objects named_texts
        (λ xs. xs)
        existing
        desired
      ≡ ok ds)
    × ((n : String)
        → (any (creates n) ds ≡ (listed_in desired n && not (listed_in existing n)))
          × (any (deletes n) ds ≡ (listed_in existing n && not (listed_in desired n)))
          × (any (compares n) ds ≡ (listed_in existing n && listed_in desired n)))
diff_objects-names_example =
    diff_objects-names named_texts (λ xs. xs) (λ q xs. refl)
      (λ o. ("name", plain (some o.0)) ∷ ("description", plain (some o.1)) ∷ []) (λ o. refl)
      (λ o p. o.0 == p.0 && o.1 == p.1) (λ o p. refl) existing desired
