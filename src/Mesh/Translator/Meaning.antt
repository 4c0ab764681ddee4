-- ===== src/Mesh/Translator/Meaning.antt =====
-- Which detections peat-mesh-sapient/src/translator.rs can place.
use peat_sapient.Base.{
  String, Bool, true, false, ◌≡◌, refl, ap, ◌∙◌, Option, none, some, List, [], ◌∷◌, str_eq, eq_iff,
  eq_refl, if◌then◌else◌, arith, inl, inr, Bool-cases,
}
use peat_sapient.Base.Dict
use peat_sapient.Base.Dict.{Dict, get-insert}
use peat_sapient.Float.{Float}
use peat_sapient.Json.{Json}
use peat_sapient.Error.{Result, ok, err}
use peat_sapient.Proto.{
  Content, DetectionReport, registration, registration_ack, status_report, detection_report, task,
  task_ack, alert, alert_ack, error,
}
use peat_sapient.Schema.{Track, TrackPosition, Position}
use peat_sapient.Transform.Status.{from_status_report}
use peat_sapient.Transform.Detection.{from_detection_report}
use peat_sapient.Transform.Detection.Outcome.{is_placeable, from_detection_report-is_ok}
use peat_sapient.Transform.Location.Errors.{is_ok}
use peat_sapient.Mesh.Translator.{
  Inbound, carried, not_carried, decode_failed, mapping_failed, cache_position, track_document,
  inbound,
}

module _ {fl : Float} (js : Json fl) where
  open js use {Value}

  -- The cache after the contents of messages, each with its node.
  abbrev pub cache_after :
      List (String × Option (Content fl)) → Dict (TrackPosition fl) → Dict (TrackPosition fl)
  cache_after [] positions = positions
  cache_after ((node_id, content) ∷ ms) positions =
      cache_after ms (inbound js node_id content positions).0

  -- A cached position, of a position that a status report states.
  abbrev pub seen_at : Position fl → TrackPosition fl
  seen_at p = record {
    latitude = p.latitude;
    longitude = p.longitude;
    altitude = fl.as_f32 p.altitude;
    cep_m = fl.decimal32 0 0;
    vertical_error_m = fl.decimal32 0 0;
  }

  -- The position that one content states for its node, or the old one.
  abbrev pub stated :
      String → Option (Content fl) → Option (TrackPosition fl) → Option (TrackPosition fl)
  stated j (some (status_report sr)) old = elim (from_status_report fl j sr).0.position [
    | none ↦ old
    | some p ↦ some (seen_at p)
  ]
  stated j (some (registration _)) old = old
  stated j (some (registration_ack _)) old = old
  stated j (some (detection_report _)) old = old
  stated j (some (task _)) old = old
  stated j (some (task_ack _)) old = old
  stated j (some (alert _)) old = old
  stated j (some (alert_ack _)) old = old
  stated j (some (error _)) old = old
  stated j none old = old

  -- The last position that the status reports of a node state.
  abbrev pub last_stated :
      String
      → Option (TrackPosition fl)
      → List (String × Option (Content fl))
      → Option (TrackPosition fl)
  last_stated j old [] = old
  last_stated j old ((node_id, content) ∷ ms) =
      last_stated j (if str_eq node_id j then stated j content old else old) ms

  get-cache_position :
      (j k : String) (p : Option (Position fl)) (positions : Dict (TrackPosition fl))
      → Dict.get j (cache_position k p positions) ≡ (
          if str_eq k j
          then elim p [ none ↦ Dict.get j positions | some q ↦ some (seen_at q) ]
          else Dict.get j positions)
  unfolding cache_position
  get-cache_position j k none positions = ground arith
  get-cache_position j k (some p) positions = get-insert j k (seen_at p) positions

  get-inbound :
      (j k : String) (content : Option (Content fl)) (positions : Dict (TrackPosition fl))
      → Dict.get j (inbound js k content positions).0
        ≡ (if str_eq k j then stated j content (Dict.get j positions) else Dict.get j positions)
  unfolding inbound
  get-inbound j k (some (status_report sr)) positions = elim (Bool-cases (str_eq k j)) [
    | inl e ↦ rw ((eq_iff k j).0 e, get-cache_position, eq_refl j)
    | inr e ↦ rw (get-cache_position, e)
  ]
  get-inbound j k (some (registration _)) positions = ground arith
  get-inbound j k (some (registration_ack _)) positions = ground arith
  get-inbound j k (some (detection_report _)) positions = ground arith
  get-inbound j k (some (task _)) positions = ground arith
  get-inbound j k (some (task_ack _)) positions = ground arith
  get-inbound j k (some (alert _)) positions = ground arith
  get-inbound j k (some (alert_ack _)) positions = ground arith
  get-inbound j k (some (error _)) positions = ground arith
  get-inbound j k none positions = ground arith

  get-cache_after :
      (j : String) (ms : List (String × Option (Content fl))) (positions : Dict (TrackPosition fl))
      → Dict.get j (cache_after ms positions) ≡ last_stated j (Dict.get j positions) ms
  get-cache_after j [] positions = refl
  get-cache_after j ((k, content) ∷ ms) positions =
      get-cache_after j ms (inbound js k content positions).0
      ∙ ap (λ o. last_stated j o ms) (get-inbound j k content positions)

  abbrev pub is_carried : Inbound Value → Bool
  is_carried (carried doc) = true
  is_carried not_carried = false
  is_carried (decode_failed e) = false
  is_carried (mapping_failed e) = false

  track_document-is_carried : (r : Result (Track fl)) → is_carried (track_document js r) ≡ is_ok r
  unfolding track_document
  track_document-is_carried (ok t) = refl
  track_document-is_carried (err e) = refl

  -- After any messages, of any nodes, a detection becomes a document exactly when it can be placed
  -- from the last position that the status reports of its own node stated.
  pub inbound-placed :
      (ms : List (String × Option (Content fl))) (j : String) (dr : DetectionReport fl)
      → is_carried (inbound js j (some (detection_report dr)) (cache_after ms [])).1
        ≡ is_placeable (last_stated j none ms) dr.location_oneof
  unfolding inbound Dict.get
  inbound-placed ms j dr =
      track_document-is_carried (from_detection_report fl js j (Dict.get j (cache_after ms [])) dr)
      ∙ from_detection_report-is_ok js j (Dict.get j (cache_after ms [])) dr
      ∙ ap (λ o. is_placeable o dr.location_oneof) (get-cache_after j ms [])
