-- ===== src/SqlRegistry/Classes.antt =====
-- The classes of objects that `SqlRegistry` (sdk/python/feast/infra/registry/sql.py) stores, with their
-- messages; the bytes of a message are written and read by the library of protocol buffers.
use feast.Base.{ℕ, some, Result, ok}
use feast.Function.{Dill}
use feast.BaseFeatureView.{BaseFeatureView}
use feast.Entity
use feast.Entity.{Entity, EntityProto}
use feast.DataSource
use feast.DataSource.{DataSource, DataSourceProto}
use feast.FeatureView.{FeatureView}
use feast.FeatureView.Messages
use feast.FeatureView.Messages.{FeatureViewProto}
use feast.StreamFeatureView.{StreamFeatureView}
use feast.StreamFeatureView.Messages as StreamMessages
use feast.StreamFeatureView.Messages.{StreamFeatureViewProto}
use feast.OnDemandFeatureView
use feast.OnDemandFeatureView.{OnDemandFeatureView, OnDemandFeatureViewProto}
use feast.RequestFeatureView
use feast.RequestFeatureView.{RequestFeatureView, RequestFeatureViewProto}
use feast.FeatureService
use feast.FeatureService.{FeatureService, FeatureServiceProto}
use feast.SavedDataset
use feast.SavedDataset.{
  SavedDataset, SavedDatasetProto, ValidationReference, ValidationReferenceProto,
}
use feast.Infra.{InfraProto}
use feast.SqlRegistry.Objects.{Class}

-- `SerializeToString` and `FromString` of a message.
pub record Codec (B P : Type 0) : Type 0 where
  pub serialize_to_string : P → B
  pub from_string : B → Result P

pub record Codecs (B : Type 0) : Type 0 where
  pub entity : Codec B EntityProto
  pub data_source : Codec B DataSourceProto
  pub feature_view : Codec B FeatureViewProto
  pub stream_feature_view : Codec B StreamFeatureViewProto
  pub on_demand_feature_view : Codec B OnDemandFeatureViewProto
  pub request_feature_view : Codec B RequestFeatureViewProto
  pub feature_service : Codec B FeatureServiceProto
  pub saved_dataset : Codec B SavedDatasetProto
  pub validation_reference : Codec B ValidationReferenceProto
  pub infra : Codec B InfraProto
  pub dill : Dill

abbrev updated_base : ℕ → BaseFeatureView → BaseFeatureView
updated_base now v = record v { last_updated_timestamp = some now }

module _ {B : Type 0} (codecs : Codecs B) where
  abbrev pub entity_class : Class B Entity EntityProto
  entity_class = record {
    with_last_updated = λ now e. record e { last_updated_timestamp = some now };
    to_proto = λ e. ok (Entity.to_proto e);
    with_created = λ now p. record p { body = record (p.body) { created_timestamp = some now } };
    from_proto = Entity.from_proto;
    serialize_to_string = codecs.entity.serialize_to_string;
    from_string = codecs.entity.from_string;
  }

  -- Neither a data source nor its message has a time.
  abbrev pub data_source_class : Class B DataSource DataSourceProto
  data_source_class = record {
    with_last_updated = λ now d. d;
    to_proto = λ d. ok (DataSource.to_proto d);
    with_created = λ now p. p;
    from_proto = λ p. ok (DataSource.from_proto p);
    serialize_to_string = codecs.data_source.serialize_to_string;
    from_string = codecs.data_source.from_string;
  }

  abbrev pub feature_view_class : Class B FeatureView FeatureViewProto
  feature_view_class = record {
    with_last_updated = λ now v. record v { base = updated_base now v.base };
    to_proto = Messages.to_proto;
    with_created = λ now p. record p { body = record (p.body) { created_timestamp = some now } };
    from_proto = Messages.from_proto;
    serialize_to_string = codecs.feature_view.serialize_to_string;
    from_string = codecs.feature_view.from_string;
  }

  abbrev pub stream_feature_view_class : Class B StreamFeatureView StreamFeatureViewProto
  stream_feature_view_class = record {
    with_last_updated = λ now v.
        let fv = v.view in record v { view = record fv { base = updated_base now fv.base } };
    to_proto = StreamMessages.to_proto codecs.dill;
    with_created = λ now p. record p { body = record (p.body) { created_timestamp = some now } };
    from_proto = StreamMessages.from_proto codecs.dill;
    serialize_to_string = codecs.stream_feature_view.serialize_to_string;
    from_string = codecs.stream_feature_view.from_string;
  }

  abbrev pub on_demand_feature_view_class : Class B OnDemandFeatureView OnDemandFeatureViewProto
  on_demand_feature_view_class = record {
    with_last_updated = λ now v. record v { base = updated_base now v.base };
    to_proto = OnDemandFeatureView.to_proto codecs.dill;
    with_created = λ now p. record p { body = record (p.body) { created_timestamp = some now } };
    from_proto = OnDemandFeatureView.from_proto codecs.dill;
    serialize_to_string = codecs.on_demand_feature_view.serialize_to_string;
    from_string = codecs.on_demand_feature_view.from_string;
  }

  -- The message of a request feature view has no time.
  abbrev pub request_feature_view_class : Class B RequestFeatureView RequestFeatureViewProto
  request_feature_view_class = record {
    with_last_updated = λ now v. record v { base = updated_base now v.base };
    to_proto = RequestFeatureView.to_proto;
    with_created = λ now p. p;
    from_proto = RequestFeatureView.from_proto;
    serialize_to_string = codecs.request_feature_view.serialize_to_string;
    from_string = codecs.request_feature_view.from_string;
  }

  abbrev pub feature_service_class : Class B FeatureService FeatureServiceProto
  feature_service_class = record {
    with_last_updated = λ now s. record s { last_updated_timestamp = some now };
    to_proto = FeatureService.to_proto;
    with_created = λ now p. record p { body = record (p.body) { created_timestamp = some now } };
    from_proto = FeatureService.from_proto;
    serialize_to_string = codecs.feature_service.serialize_to_string;
    from_string = codecs.feature_service.from_string;
  }

  abbrev pub saved_dataset_class : Class B SavedDataset SavedDatasetProto
  saved_dataset_class = record {
    with_last_updated = λ now d. record d { last_updated_timestamp = some now };
    to_proto = λ d. ok (SavedDataset.to_proto d);
    with_created = λ now p. record p { body = record (p.body) { created_timestamp = some now } };
    from_proto = λ p. ok (SavedDataset.from_proto p);
    serialize_to_string = codecs.saved_dataset.serialize_to_string;
    from_string = codecs.saved_dataset.from_string;
  }

  -- Neither a validation reference nor its message has a time.
  abbrev pub validation_reference_class : Class B ValidationReference ValidationReferenceProto
  validation_reference_class = record {
    with_last_updated = λ now r. r;
    to_proto = λ r. ok (SavedDataset.reference_to_proto r);
    with_created = λ now p. p;
    from_proto = λ p. ok (SavedDataset.reference_from_proto p);
    serialize_to_string = codecs.validation_reference.serialize_to_string;
    from_string = codecs.validation_reference.from_string;
  }

  -- An infrastructure is given by its message.
  abbrev pub infra_class : Class B InfraProto InfraProto
  infra_class = record {
    with_last_updated = λ now i. i;
    to_proto = λ i. ok i;
    with_created = λ now p. p;
    from_proto = λ p. ok p;
    serialize_to_string = codecs.infra.serialize_to_string;
    from_string = codecs.infra.from_string;
  }
