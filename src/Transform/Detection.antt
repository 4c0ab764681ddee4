-- ===== src/Transform/Detection.antt =====
-- `enu_to_velocity` and `from_detection_report` of peat-sapient/src/transform/detection.rs.
pub mod Outcome
use peat_sapient.Base.{
  ℕ, String, Bool, not, Option, none, some, List, [], ◌∷◌, map, filter_map, is_empty, unwrap_or,
  if◌then◌else◌,
}
use peat_sapient.Base.Dict
use peat_sapient.Base.Dict.{Dict}
use peat_sapient.Float.{Float}
use peat_sapient.Json.{Json}
use peat_sapient.Error.{Result, ok, err, ◌>>=◌, mapping_error, unsupported_coordinate_system}
use peat_sapient.Proto.{
  DetectionReport, LocationOneof, location, range_bearing, EnuVelocity, Classification, Behaviour,
}
use peat_sapient.Schema.{
  Track, TrackPosition, PositionError, Velocity, TrackSource, TrackState, SourceType,
}
use peat_sapient.Transform.Location.{location_to_track_position}
use peat_sapient.Transform.RangeBearing.{range_bearing_to_track_position}

module _ (fl : Float) where
  open fl use {decimal, decimal32, add, mul, sqrt, atan2, to_degrees, as_f32, add32, lt32}

  unfoldable pub enu_to_velocity : EnuVelocity fl → Velocity fl
  enu_to_velocity enu =
      let east = unwrap_or (decimal 0 0) enu.east_rate in
      let north = unwrap_or (decimal 0 0) enu.north_rate in
      let up = unwrap_or (decimal 0 0) enu.up_rate in
      let bearing_deg = as_f32 (to_degrees (atan2 east north)) in
      record {
        bearing =
            if lt32 bearing_deg (decimal32 0 0)
            then add32 bearing_deg (decimal32 360 0)
            else bearing_deg;
        speed_mps = as_f32 (sqrt (add (mul east east) (mul north north)));
        vertical_speed_mps = as_f32 up;
      }

  unfoldable pub resolve :
      Option (TrackPosition fl)
      → Option (LocationOneof fl)
      → Result (TrackPosition fl × PositionError fl)
  resolve sensor (some (location loc)) = location_to_track_position fl loc
  resolve (some sensor) (some (range_bearing rb)) = range_bearing_to_track_position fl rb sensor
  resolve none (some (range_bearing rb)) =
      err (unsupported_coordinate_system "range-bearing requires sensor position")
  resolve sensor none = err (mapping_error "detection" "DetectionReport has no location")

  -- Type and confidence of the first classification.
  unfoldable pub first_class : List (Classification fl) → String × fl.F32
  first_class [] = ("", decimal32 0 0)
  first_class (c ∷ cs) = (unwrap_or "" c.class_type, unwrap_or (decimal32 0 0) c.confidence)

  module _ (js : Json fl) where
    open js use {Value, string, array, to_string}

    -- `if let Some(text) = .. { attrs.insert(key, ..) }`.
    unfoldable pub insert_text : String → Option String → Dict Value → Dict Value
    insert_text key none attrs = attrs
    insert_text key (some text) attrs = Dict.insert key (string text) attrs

    unfoldable pub behaviour_types : List Behaviour → List Value
    behaviour_types =
        filter_map (λ b. elim b.behaviour_type [ none ↦ none | some t ↦ some (string t) ])

    unfoldable pub attributes : DetectionReport fl → Dict Value
    unfolding insert_text behaviour_types
    attributes msg =
        let attrs = insert_text "id" msg.id (insert_text "colour" msg.colour []) in
        if not (is_empty msg.behaviour)
        then Dict.insert "behaviours" (array (behaviour_types msg.behaviour)) attrs
        else attrs

    unfoldable pub track_of :
        String → DetectionReport fl → TrackPosition fl → PositionError fl → Track fl
    unfolding first_class enu_to_velocity attributes
    track_of node_id msg position pos_error = record {
      track_id = unwrap_or "" msg.object_id;
      classification = (first_class msg.classification).0;
      confidence = (first_class msg.classification).1;
      position = some position;
      velocity = elim msg.velocity_oneof [ none ↦ none | some enu ↦ some (enu_to_velocity enu) ];
      position_error = some pos_error;
      state = TrackState.confirmed;
      source = some (record {
        node_id = node_id;
        sensor_id = unwrap_or "" msg.report_id;
        model_version = "";
        source_type = SourceType.sensor;
      });
      attributes_json = to_string (attributes msg);
      last_seen = none;
      observation_count = 1;
    }

    unfoldable pub from_detection_report :
        String → Option (TrackPosition fl) → DetectionReport fl → Result (Track fl)
    unfolding resolve track_of
    from_detection_report node_id sensor_position msg = do
      placed ← resolve sensor_position msg.location_oneof
      ok (track_of node_id msg placed.0 placed.1)
