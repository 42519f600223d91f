-- ===== src/RequestFeatureView.antt =====
-- `RequestFeatureView` of sdk/python/feast/request_feature_view.py.
use feast.Base.{
  String, Bool, ◌≡◌, arith, [], Result, ok, ◌>>=◌, Result-cases, inl, inr, ok-injective,
}
use feast.Base.Dict.{Dict}
use feast.Proto.{Proto, set_project}
use feast.RequestSource
use feast.RequestSource.{RequestSource, RequestSourceProto, from_proto-to_proto_request}
use feast.BaseFeatureView.{BaseFeatureView, make_base, base_eq}

pub record RequestFeatureView : Type 0 where
  pub base : BaseFeatureView
  pub open base use *
  pub request_source : RequestSource

pub record RequestFeatureViewBody : Type 0 where
  pub request_data_source : RequestSourceProto
  pub description : String
  pub tags : Dict String String
  pub owner : String

abbrev pub RequestFeatureViewProto : Type 0
RequestFeatureViewProto = Proto RequestFeatureViewBody

-- `RequestFeatureView.__init__`, on a source whose schema is a list.
unfoldable pub make_request_feature_view :
    String → RequestSource → String → Dict String String → String → RequestFeatureView
unfolding make_base
make_request_feature_view name request_data_source description tags owner = record {
  base = make_base name request_data_source.schema description tags owner;
  request_source = request_data_source;
}

-- `RequestFeatureView.to_proto`: the message has no `meta`, and so no timestamps.
unfoldable pub to_proto : RequestFeatureView → Result RequestFeatureViewProto
to_proto v = do
  source ← RequestSource.to_proto v.request_source
  ok (record {
    name = v.name;
    project = "";
    body = record {
      request_data_source = source;
      description = v.description;
      tags = v.tags;
      owner = v.owner;
    };
  })

-- `RequestFeatureView.from_proto`
unfoldable pub from_proto : RequestFeatureViewProto → Result RequestFeatureView
unfolding make_request_feature_view
from_proto p = do
  source ← RequestSource.from_proto p.body.request_data_source
  ok (make_request_feature_view p.name source p.body.description p.body.tags p.body.owner)

-- `RequestFeatureView` defines no equality of its own: `BaseFeatureView.__eq__`.
unfoldable pub request_feature_view_eq : RequestFeatureView → RequestFeatureView → Result Bool
request_feature_view_eq a b = ok (base_eq a.base b.base)

-- `RequestFeatureView.__copy__`
unfoldable pub copy : RequestFeatureView → RequestFeatureView
unfolding make_request_feature_view
copy v =
    let fv = make_request_feature_view v.name v.request_source "" [] "" in
    record fv { base = record (fv.base) { projection = v.projection } }

-- What is read back from a view's message: the view as it was made from its source, with no
-- timestamps and the default projection.
pub from_proto-to_proto_request_view :
    (v : RequestFeatureView) (p : RequestFeatureViewProto) (project : String)
    → to_proto v ≡ ok p
    → from_proto (set_project project p)
      ≡ ok (make_request_feature_view v.name v.request_source v.description v.tags v.owner)
unfolding to_proto from_proto
from_proto-to_proto_request_view v p project h =
    elim (Result-cases (RequestSource.to_proto v.request_source)) [
      | inl (e, q) ↦ ground arith
      | inr (source, q) ↦
          rw (← ok-injective _ _ (rw q at h))
            (rw (from_proto-to_proto_request v.request_source source q))
    ]
