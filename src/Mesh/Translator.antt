-- ===== src/Mesh/Translator.antt =====
-- peat-mesh-sapient/src/translator.rs. The lock of the cache is held for one operation, so the cache
-- is passed along. The bytes of a message are those of the protobuf library `prost`.
pub mod Meaning
pub mod RoundTrip
use peat_sapient.Base.{
  ℕ, String, Bool, Option, none, some, List, [], ◌∷◌, str_eq, if◌then◌else◌, unwrap_or,
}
use peat_sapient.Base.Int.{pos}
use peat_sapient.Base.Dict
use peat_sapient.Base.Dict.{Dict}
use peat_sapient.Float.{Float}
use peat_sapient.Json.{Json}
use peat_sapient.Error.{SapientError, Result, ok, err}
use peat_sapient.Codec.{Prost}
use peat_sapient.Proto.{
  SapientMessage, Content, DetectionReport, Classification, LocationOneof, location, registration,
  registration_ack, status_report, detection_report, task, task_ack, alert, alert_ack, error,
}
use peat_sapient.Schema.{
  Track, TrackPosition, Position, NodeState, CapabilityAdvertisement, OperationalStatus,
}
use peat_sapient.Transform.Registration.{from_registration}
use peat_sapient.Transform.Status.{from_status_report}
use peat_sapient.Transform.Detection.{from_detection_report}
use peat_sapient.Mesh.Fields.{track_to_fields, platform_to_fields}

-- `peat_mesh::sync::types::Document`.
pub record Document (Value : Type 0) : Type 0 where
  pub id : Option String
  pub fields : Dict Value

-- `anyhow::Result<Option<Document>>` with the two contexts that the source adds to an error.
pub data Inbound (Value : Type 0) : Type 0 where
  carried : Document Value → Inbound Value
  not_carried : Inbound Value
  decode_failed : SapientError → Inbound Value
  mapping_failed : SapientError → Inbound Value

unfoldable pub document_from_fields : {Value : Type 0} → String × Dict Value → Document Value
document_from_fields (id, fields) = record { id = some id; fields = fields }

module _ {fl : Float} where
  -- The advertisement that stands in for an absent one: all else is default.
  unfoldable pub bare_advertisement : String → CapabilityAdvertisement fl
  bare_advertisement node_id = record {
    node_id = node_id;
    capabilities = [];
    resources = none;
    operational_status = OperationalStatus.unspecified;
  }

  unfoldable pub cache_position :
      String → Option (Position fl) → Dict (TrackPosition fl) → Dict (TrackPosition fl)
  cache_position node_id none positions = positions
  cache_position node_id (some p) positions =
      Dict.insert node_id
        (record {
          latitude = p.latitude;
          longitude = p.longitude;
          altitude = fl.as_f32 p.altitude;
          cep_m = fl.decimal32 0 0;
          vertical_error_m = fl.decimal32 0 0;
        })
        positions

module _ {fl : Float} (js : Json fl) where
  open js use {Value, as_f64, as_str}

  -- `doc.fields.get(key).and_then(|v| v.as_f64())`, and with `as_str`.
  unfoldable pub number_at : String → Dict Value → Option fl.F64
  number_at key fields = elim (Dict.get key fields) [ none ↦ none | some v ↦ as_f64 v ]

  unfoldable pub text_at : String → Dict Value → Option String
  text_at key fields = elim (Dict.get key fields) [ none ↦ none | some v ↦ as_str v ]

  unfoldable pub outbound_classes : Dict Value → List (Classification fl)
  unfolding number_at text_at
  outbound_classes fields = elim (text_at "sapient_classification" fields) [
    | none ↦ []
    | some class ↦
        record {
          class_type = some class;
          confidence = elim (number_at "sapient_confidence" fields) [
            | none ↦ none
            | some c ↦ some (fl.as_f32 c)
          ];
        }
        ∷ []
  ]

  unfoldable pub outbound_report : String → fl.F64 → fl.F64 → Dict Value → DetectionReport fl
  unfolding outbound_classes
  outbound_report object_id lat lon fields = record {
    report_id = none;
    object_id = some object_id;
    location_oneof = some (
        location (record {
          x = some lon;
          y = some lat;
          z = some (unwrap_or (fl.decimal 0 0) (number_at "hae" fields));
          x_error = none;
          y_error = none;
          z_error = none;
          coordinate_system = some (pos 1);
          datum = some (pos 1);
          utm_zone = none;
        }));
    detection_confidence = none;
    classification = outbound_classes fields;
    behaviour = [];
    velocity_oneof = none;
    colour = none;
    id = none;
  }

  unfoldable pub outbound_message :
      Option String → String → fl.F64 → fl.F64 → Dict Value → SapientMessage fl
  unfolding outbound_report
  outbound_message local_wire_id object_id lat lon fields = record {
    timestamp = none;
    node_id = local_wire_id;
    destination_id = none;
    content = some (detection_report (outbound_report object_id lat lon fields));
  }

  -- What follows the test of the collection.
  unfoldable pub outbound : Option String → Document Value → Option (SapientMessage fl)
  unfolding outbound_message
  outbound local_wire_id doc = elim doc.id [
    | none ↦ none
    | some object_id ↦ elim (number_at "lat" doc.fields) [
      | none ↦ none
      | some lat ↦ elim (number_at "lon" doc.fields) [
        | none ↦ none
        | some lon ↦ some (outbound_message local_wire_id object_id lat lon doc.fields)
      ]
    ]
  ]

  unfoldable pub encode_outbound :
      Prost (SapientMessage fl) → Option String → Option String → Document Value → Option (List ℕ)
  unfolding outbound
  encode_outbound prost collection local_wire_id doc = elim collection [
    | none ↦ none
    | some c ↦
        if str_eq c "tracks"
        then elim (outbound local_wire_id doc) [
          | none ↦ none
          | some msg ↦ some (prost.encode_to_vec msg)
        ]
        else none
  ]

  unfoldable pub track_document : Result (Track fl) → Inbound Value
  unfolding document_from_fields
  track_document (ok track) = carried (document_from_fields (track_to_fields js track))
  track_document (err e) = mapping_failed e

  unfoldable pub status_document :
      String → NodeState fl → Option (CapabilityAdvertisement fl) → Document Value
  unfolding document_from_fields bare_advertisement
  status_document node_id state delta =
      document_from_fields
        (platform_to_fields js (unwrap_or (bare_advertisement node_id) delta) (some state))

  -- The `match msg.content`.
  unfoldable pub inbound :
      String
      → Option (Content fl)
      → Dict (TrackPosition fl)
      → Dict (TrackPosition fl) × Inbound Value
  unfolding cache_position track_document status_document
  inbound node_id (some (registration reg)) positions = (
    positions,
    carried (document_from_fields (platform_to_fields js (from_registration js node_id reg) none)),
  )
  inbound node_id (some (status_report sr)) positions =
      let (state, delta) = from_status_report fl node_id sr in
      (
        cache_position node_id state.position positions,
        carried (status_document node_id state delta),
      )
  inbound node_id (some (detection_report dr)) positions = (
    positions,
    track_document (from_detection_report fl js node_id (Dict.get node_id positions) dr),
  )
  inbound node_id (some (registration_ack _)) positions = (positions, not_carried)
  inbound node_id (some (task _)) positions = (positions, not_carried)
  inbound node_id (some (task_ack _)) positions = (positions, not_carried)
  inbound node_id (some (alert _)) positions = (positions, not_carried)
  inbound node_id (some (alert_ack _)) positions = (positions, not_carried)
  inbound node_id (some (error _)) positions = (positions, not_carried)
  inbound node_id none positions = (positions, not_carried)

  unfoldable pub decode_inbound :
      Prost (SapientMessage fl)
      → List ℕ
      → Dict (TrackPosition fl)
      → Dict (TrackPosition fl) × Inbound Value
  unfolding inbound
  decode_inbound prost bytes positions = elim (prost.decode bytes) [
    | ok msg ↦ inbound (unwrap_or "" msg.node_id) msg.content positions
    | err e ↦ (positions, decode_failed e)
  ]
