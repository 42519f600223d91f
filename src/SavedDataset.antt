-- ===== src/SavedDataset.antt =====
-- `SavedDataset` and `ValidationReference` of sdk/python/feast/saved_dataset.py.
use feast.Base.{
  ℕ, String, Bool, ◌≡◌, refl, Option, none, some, List, if◌then◌else◌, ◌==◌, string_eq,
}
use feast.Base.Dict.{Dict}
use feast.Proto.{Proto, set_project}

pub record SavedDataset : Type 0 where
  pub name : String
  pub features : List String
  pub join_keys : List String
  -- The storage, as its message.
  pub storage : String
  pub full_feature_names : Bool
  pub tags : Dict String String
  pub feature_service_name : Option String
  pub created_timestamp : Option ℕ
  pub last_updated_timestamp : Option ℕ
  pub min_event_timestamp : Option ℕ
  pub max_event_timestamp : Option ℕ

pub record SavedDatasetBody : Type 0 where
  pub features : List String
  pub join_keys : List String
  pub storage : String
  pub full_feature_names : Bool
  pub tags : Dict String String
  pub feature_service_name : String
  pub created_timestamp : Option ℕ
  pub last_updated_timestamp : Option ℕ
  pub min_event_timestamp : Option ℕ
  pub max_event_timestamp : Option ℕ

abbrev pub SavedDatasetProto : Type 0
SavedDatasetProto = Proto SavedDatasetBody

-- A text field that is set only `if` the value is true.
abbrev text_of : Option String → String
text_of none = ""
text_of (some s) = s

abbrev name_of : String → Option String
name_of s = if s == "" then none else some s

-- `SavedDataset.to_proto`: the time of the last update is not written.
unfoldable pub to_proto : SavedDataset → SavedDatasetProto
to_proto d = record {
  name = d.name;
  project = "";
  body = record {
    features = d.features;
    join_keys = d.join_keys;
    storage = d.storage;
    full_feature_names = d.full_feature_names;
    tags = d.tags;
    feature_service_name = text_of d.feature_service_name;
    created_timestamp = d.created_timestamp;
    last_updated_timestamp = none;
    min_event_timestamp = d.min_event_timestamp;
    max_event_timestamp = d.max_event_timestamp;
  };
}

-- `SavedDataset.from_proto`
unfoldable pub from_proto : SavedDatasetProto → SavedDataset
from_proto p = record {
  name = p.name;
  features = p.body.features;
  join_keys = p.body.join_keys;
  storage = p.body.storage;
  full_feature_names = p.body.full_feature_names;
  tags = p.body.tags;
  feature_service_name = name_of p.body.feature_service_name;
  created_timestamp = p.body.created_timestamp;
  last_updated_timestamp = p.body.last_updated_timestamp;
  min_event_timestamp = p.body.min_event_timestamp;
  max_event_timestamp = p.body.max_event_timestamp;
}

-- A dataset is read back from its message without the time of its last update, and without an
-- empty name of a feature service; all else is unchanged, in whatever project it was written.
pub from_proto-to_proto_dataset :
    (d : SavedDataset) (project : String)
    → from_proto (set_project project (to_proto d)) ≡ record d {
      feature_service_name = name_of (text_of d.feature_service_name);
      last_updated_timestamp = none;
    }
unfolding to_proto from_proto
from_proto-to_proto_dataset d project = refl

pub record ValidationReference : Type 0 where
  pub name : String
  pub dataset_name : String
  pub description : String
  pub tags : Dict String String
  -- The profiler, and the profile if it has been computed, as their messages.
  pub profiler : String
  pub profile : Option String

pub record ValidationReferenceBody : Type 0 where
  pub reference_dataset_name : String
  pub description : String
  pub tags : Dict String String
  pub ge_profiler : String
  pub ge_profile : Option String

abbrev pub ValidationReferenceProto : Type 0
ValidationReferenceProto = Proto ValidationReferenceBody

-- `ValidationReference.to_proto`, with a profiler of the class `GEProfiler`.
unfoldable pub reference_to_proto : ValidationReference → ValidationReferenceProto
reference_to_proto r = record {
  name = r.name;
  project = "";
  body = record {
    reference_dataset_name = r.dataset_name;
    description = r.description;
    tags = r.tags;
    ge_profiler = r.profiler;
    ge_profile = r.profile;
  };
}

-- `ValidationReference.from_proto`
unfoldable pub reference_from_proto : ValidationReferenceProto → ValidationReference
reference_from_proto p = record {
  name = p.name;
  dataset_name = p.body.reference_dataset_name;
  description = p.body.description;
  tags = p.body.tags;
  profiler = p.body.ge_profiler;
  profile = p.body.ge_profile;
}
