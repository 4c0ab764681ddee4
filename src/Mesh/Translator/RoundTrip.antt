-- ===== src/Mesh/Translator/RoundTrip.antt =====
-- A document of peat-mesh-sapient/src/translator.rs, sent and received again.
use peat_sapient.Base.{
  String, false, ◌≡◌, refl, ap, ◌∙◌, Option, none, some, [], unwrap_or, str_eq, inl, inr,
  Bool-cases, Option-cases, sym, arith,
}
use peat_sapient.Base.Dict
use peat_sapient.Base.Dict.{Dict, get-insert}
use peat_sapient.Float.{Float}
use peat_sapient.Json.{Json}
use peat_sapient.Error.{ok}
use peat_sapient.Codec.{Prost}
use peat_sapient.Proto.{SapientMessage}
use peat_sapient.Schema.{TrackPosition, Track, Timestamp, TrackSource}
use peat_sapient.Transform.Detection.{from_detection_report, resolve, track_of}
use peat_sapient.Transform.Location.{
  location_to_track_position, locate, by_system, try_from, located, ok_or,
}
use peat_sapient.Mesh.Fields.{
  track_to_fields, position_fields, time_fields, class_fields, source_fields,
}
use peat_sapient.Mesh.Translator.{
  Document, carried, number_at, outbound_report, outbound_message, outbound, encode_outbound,
  track_document, inbound, decode_inbound, document_from_fields,
}

module _ {fl : Float} (js : Json fl) where
  open js use {Value, f64, as_f64, string, as_str}

  -- A key that comes before the fields of time, class, confidence and source.
  abbrev IsPlace : String → Type 0
  IsPlace k =
      (str_eq "timestamp_ms" k ≡ false)
      × (str_eq "sapient_classification" k ≡ false)
      × (str_eq "sapient_confidence" k ≡ false)
      × (str_eq "sapient_source_node_id" k ≡ false)

  get-source_fields :
      (k : String) (src : Option TrackSource) (fields : Dict Value)
      → str_eq "sapient_source_node_id" k ≡ false
      → Dict.get k (source_fields js src fields) ≡ Dict.get k fields
  unfolding source_fields
  get-source_fields k none fields h = refl
  get-source_fields k (some s) fields h = elim (Bool-cases (str_eq s.node_id "")) [
    | inl e ↦ rw (source_fields, e)
    | inr e ↦ rw (source_fields, e, get-insert, h)
  ]

  get-class_fields :
      (k : String) (c : String) (fields : Dict Value)
      → str_eq "sapient_classification" k ≡ false
      → Dict.get k (class_fields js c fields) ≡ Dict.get k fields
  unfolding class_fields
  get-class_fields k c fields h = elim (Bool-cases (str_eq c "")) [
    | inl e ↦ rw (class_fields, e)
    | inr e ↦ rw (class_fields, e, get-insert, h)
  ]

  get-time_fields :
      (k : String) (t : Option Timestamp) (fields : Dict Value)
      → str_eq "timestamp_ms" k ≡ false
      → Dict.get k (time_fields js t fields) ≡ Dict.get k fields
  unfolding time_fields
  get-time_fields k none fields h = refl
  get-time_fields k (some t) fields h = rw (get-insert, h)

  get-rest_fields :
      (k : String) (track : Track fl)
      → IsPlace k
      → Dict.get k (track_to_fields js track).1 ≡ Dict.get k (position_fields js track.position [])
  unfolding track_to_fields
  get-rest_fields k track h =
      get-source_fields k track.source _ h.3
      ∙ rw (get-insert, h.2)
          (get-class_fields k track.classification _ h.1 ∙ get-time_fields k track.last_seen _ h.0)

  get-place :
      (p : TrackPosition fl)
      → (Dict.get "lat" (position_fields js (some p) []) ≡ some (f64 p.latitude))
        × (Dict.get "lon" (position_fields js (some p) []) ≡ some (f64 p.longitude))
  unfolding position_fields Dict.get Dict.insert
  get-place p = elim (Bool-cases (fl.eq32 p.altitude (fl.decimal32 0 0))) [
    | inl e ↦ rw (e, position_fields) (refl, refl)
    | inr e ↦ rw (e, position_fields) (refl, refl)
  ]

  number_at-track :
      (track : Track fl) (p : TrackPosition fl)
      → track.position ≡ some p
      → as_f64 (f64 p.latitude) ≡ some p.latitude
      → as_f64 (f64 p.longitude) ≡ some p.longitude
      → let fields = (track_to_fields js track).1 in
        (number_at js "lat" fields ≡ some p.latitude)
        × (number_at js "lon" fields ≡ some p.longitude)
  unfolding number_at
  number_at-track track p at reads_lat reads_lon = (
    rw (number_at, get-rest_fields "lat" track (refl, refl, refl, refl), at, (get-place p).0)
        reads_lat,
    rw (number_at, get-rest_fields "lon" track (refl, refl, refl, refl), at, (get-place p).1)
        reads_lon,
  )

  inbound-track :
      (prost : Prost (SapientMessage fl)) (wire : Option String) (id : String) (lat lon : fl.F64)
      (fields : Dict Value) (positions : Dict (TrackPosition fl)) (track : Track fl)
      → let msg = outbound_message js wire id lat lon fields in
        prost.decode (prost.encode_to_vec msg) ≡ ok msg
        → from_detection_report fl js
            (unwrap_or "" wire)
            (Dict.get (unwrap_or "" wire) positions)
            (outbound_report js id lat lon fields)
          ≡ ok track
        → decode_inbound js prost (prost.encode_to_vec msg) positions
          ≡ (positions, carried (document_from_fields (track_to_fields js track)))
  unfolding decode_inbound inbound track_document outbound_message track_to_fields
  inbound-track prost wire id lat lon fields positions track law made =
      rw (law, decode_inbound, outbound_message) (rw made refl)

  echoed :
      (node_id id : String) (lat lon : fl.F64) (fields : Dict Value)
      (sensor : Option (TrackPosition fl))
      → (track : Track fl) × (p : TrackPosition fl) × (from_detection_report fl js node_id sensor
            (outbound_report js id lat lon fields)
          ≡ ok track)
        × (track.track_id ≡ id)
        × (track.position ≡ some p)
        × (p.latitude ≡ lat)
        × (p.longitude ≡ lon)
  unfolding from_detection_report resolve location_to_track_position ok_or locate by_system try_from
      located track_of outbound_report
  echoed node_id id lat lon fields none = (_, _, refl, refl, refl, refl, refl)
  echoed node_id id lat lon fields (some sensor) = (_, _, refl, refl, refl, refl, refl)

  reread :
      (fields : Dict Value) (key : String) (x : fl.F64)
      → ((v : Value) (y : fl.F64) → as_f64 v ≡ some y → as_f64 (f64 y) ≡ some y)
      → number_at js key fields ≡ some x
      → as_f64 (f64 x) ≡ some x
  unfolding number_at
  reread fields key x reads h = elim (Option-cases (Dict.get key fields)) [
    | inl e ↦ absurd (ground (arith, e, h))
    | inr (v, e) ↦ reads v x (sym (rw (number_at, e) refl) ∙ h)
  ]

  -- A document of the tracks that has an identifier and a position is sent, and what is sent is
  -- received as a document with the same identifier and position, without a change to the cache. It
  -- is assumed that protobuf gives back this message, and that a number that was read from a JSON
  -- value, and so is finite, is read back when it is made a JSON value again.
  pub decode_inbound-encode :
      (prost : Prost (SapientMessage fl)) (wire : Option String) (id : String) (lat lon : fl.F64)
      (fields : Dict Value) (positions : Dict (TrackPosition fl))
      → let msg = outbound_message js wire id lat lon fields in
        number_at js "lat" fields ≡ some lat
        → number_at js "lon" fields ≡ some lon
        → prost.decode (prost.encode_to_vec msg) ≡ ok msg
        → ((v : Value) (x : fl.F64) → as_f64 v ≡ some x → as_f64 (f64 x) ≡ some x)
        → (encode_outbound js prost (some "tracks") wire (record { id = some id; fields = fields })
            ≡ some (prost.encode_to_vec msg))
          × ((doc : Document Value) × (decode_inbound js prost (prost.encode_to_vec msg) positions
                ≡ (positions, carried doc))
              × (doc.id ≡ some id)
              × (number_at js "lat" doc.fields ≡ some lat)
              × (number_at js "lon" doc.fields ≡ some lon))
  unfolding encode_outbound outbound document_from_fields track_to_fields
  decode_inbound-encode prost wire id lat lon fields positions has_lat has_lon law reads =
      let (track, p, made, same_id, at, same_lat, same_lon) =
        echoed (unwrap_or "" wire) id lat lon fields (Dict.get (unwrap_or "" wire) positions) in
      let lat_kept = reread fields "lat" lat reads has_lat in
      let lon_kept = reread fields "lon" lon reads has_lon in
      let (lat_at, lon_at) =
        number_at-track track p at (rw same_lat lat_kept) (rw same_lon lon_kept) in
      (
        rw (has_lat, has_lon, outbound),
        (
          document_from_fields (track_to_fields js track),
          inbound-track prost wire id lat lon fields positions track law made,
          ap some same_id,
          lat_at ∙ ap some same_lat,
          lon_at ∙ ap some same_lon,
        ),
      )
