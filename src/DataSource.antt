-- ===== src/DataSource.antt =====
-- `DataSource` of sdk/python/feast/data_source.py. What a class of sources adds to the base class
-- (a path, a table, a topic) is the text `options`, which only that class reads.
use feast.Base.{
  String, Bool, ◌&&◌, ◌||◌, ◌≡◌, refl, Option, none, some, Result, ok, err, ◌>>◌, require, ◌==◌,
  string_eq, if◌then◌else◌, not, value_error, type_error, arith, true, false, ◌and_then◌,
}
use feast.Base.Dict.{Dict, dict_eq}
use mathlib.Core.Option
use feast.Proto.{Proto, set_project}

pub record DataSource : Type 0 where
  pub name : String
  -- The module and the name of the class, `{cls.__module__}.{cls.__name__}`.
  pub class_name : String
  -- Whether the class's messages have the type `CUSTOM_SOURCE`.
  pub is_custom : Bool
  pub timestamp_field : String
  pub created_timestamp_column : String
  pub field_mapping : Dict String String
  pub date_partition_column : String
  pub description : String
  pub tags : Dict String String
  pub owner : String
  pub options : String

pub record DataSourceBody : Type 0 where
  pub data_source_class_type : String
  pub is_custom : Bool
  pub timestamp_field : String
  pub created_timestamp_column : String
  pub field_mapping : Dict String String
  pub date_partition_column : String
  pub description : String
  pub tags : Dict String String
  pub owner : String
  pub options : String

abbrev pub DataSourceProto : Type 0
DataSourceProto = Proto DataSourceBody

-- The check of `DataSource.__init__`.
unfoldable pub make_data_source : DataSource → Result DataSource
make_data_source d = do
  require (d.timestamp_field == "" || not (d.timestamp_field == d.created_timestamp_column)) (
      value_error
        "Please do not use the same column for 'timestamp_field' and 'created_timestamp_column'.")
  ok d

-- The comparisons of `DataSource.__eq__`.
unfoldable pub base_eq : DataSource → DataSource → Bool
base_eq a b =
    a.name == b.name
    && a.timestamp_field == b.timestamp_field
    && a.created_timestamp_column == b.created_timestamp_column
    && dict_eq a.field_mapping b.field_mapping
    && a.date_partition_column == b.date_partition_column
    && a.description == b.description
    && dict_eq a.tags b.tags
    && a.owner == b.owner

-- `a == b` on sources as their classes define it: a source of another class raises `TypeError`, and
-- what the class adds is compared after the base class's fields.
unfoldable pub data_source_eq : DataSource → DataSource → Result Bool
unfolding base_eq
data_source_eq a b =
    if a.class_name == b.class_name
    then ok (base_eq a b && a.options == b.options)
    else err type_error

-- `to_proto`, with the class type that the callers set on its result.
unfoldable pub to_proto : DataSource → DataSourceProto
to_proto d = record {
  name = d.name;
  project = "";
  body = record {
    data_source_class_type = d.class_name;
    is_custom = d.is_custom;
    timestamp_field = d.timestamp_field;
    created_timestamp_column = d.created_timestamp_column;
    field_mapping = d.field_mapping;
    date_partition_column = d.date_partition_column;
    description = d.description;
    tags = d.tags;
    owner = d.owner;
    options = d.options;
  };
}

-- `DataSource.from_proto`, which makes an object of the class that the message names.
unfoldable pub from_proto : DataSourceProto → DataSource
from_proto p = record {
  name = p.name;
  class_name = p.body.data_source_class_type;
  is_custom = p.body.is_custom;
  timestamp_field = p.body.timestamp_field;
  created_timestamp_column = p.body.created_timestamp_column;
  field_mapping = p.body.field_mapping;
  date_partition_column = p.body.date_partition_column;
  description = p.body.description;
  tags = p.body.tags;
  owner = p.body.owner;
  options = p.body.options;
}

-- The project that the registry writes into a message does not change what is read back from it.
pub from_proto-to_proto_source :
    (d : DataSource) (project : String) → from_proto (set_project project (to_proto d)) ≡ d
unfolding to_proto from_proto
from_proto-to_proto_source d project = refl

-- A push, Kafka or Kinesis source, which may hold a batch source.
pub record StreamSource : Type 0 where
  pub source : DataSource
  pub batch_source : Option DataSource

pub record StreamSourceProto : Type 0 where
  pub source : DataSourceProto
  pub batch_source : Option DataSourceProto

unfoldable pub stream_to_proto : StreamSource → StreamSourceProto
unfolding to_proto
stream_to_proto s = record {
  source = to_proto s.source;
  batch_source = Option.map to_proto s.batch_source;
}

unfoldable pub stream_from_proto : StreamSourceProto → StreamSource
unfolding from_proto
stream_from_proto p = record {
  source = from_proto p.source;
  batch_source = Option.map from_proto p.batch_source;
}

-- A stream source is read back from its message unchanged.
pub stream_from_proto-stream_to_proto :
    (s : StreamSource) → stream_from_proto (stream_to_proto s) ≡ s
unfolding stream_from_proto stream_to_proto
stream_from_proto-stream_to_proto s = ground arith

abbrev pub push_source : String
push_source = "feast.data_source.PushSource"

-- `x != y` negated, on what may be `None`: `None` equals only itself.
unfoldable pub optional_eq :
    {A : Type 0} → (A → A → Result Bool) → Option A → Option A → Result Bool
optional_eq same none none = ok true
optional_eq same (some a) (some b) = same a b
optional_eq same _ _ = ok false

-- `a == b` on stream sources. `PushSource` answers `False` to another class and compares the batch
-- sources; the other classes raise `TypeError` and do not compare them.
unfoldable pub stream_source_eq : StreamSource → StreamSource → Result Bool
unfolding data_source_eq optional_eq
stream_source_eq a b =
    if a.source.class_name == push_source
    then (a.source.class_name == b.source.class_name && base_eq a.source b.source)
      and_then optional_eq data_source_eq a.batch_source b.batch_source
    else data_source_eq a.source b.source

-- What a feature view takes as its `source`.
pub data Source : Type 0 where
  batch : DataSource → Source
  stream : StreamSource → Source
