-- ===== src/Transform/Alert.antt =====
-- peat-sapient/src/transform/alert.rs. `display` prints an `i32` in decimal.
pub mod Position
use peat_sapient.Base.{
  String, not, Option, none, some, List, [], concat, unwrap_or, is_empty, filter_map, if◌then◌else◌,
}
use peat_sapient.Base.Int.{ℤ, pos, is_num}
use peat_sapient.Base.Dict
use peat_sapient.Base.Dict.{Dict}
use peat_sapient.Float.{Float}
use peat_sapient.Json.{Json}
use peat_sapient.Error.{ok, err}
use peat_sapient.Proto.{Alert, AssociatedDetection, LocationOneof, location, range_bearing}
use peat_sapient.Schema.{TrackPosition}
use peat_sapient.Transform.Location.{location_to_track_position}
use peat_sapient.Transform.Detection.{insert_text}

pub record SapientAlertEvent (fl : Float) : Type 0 where
  pub alert_id : String
  pub alert_type : String
  pub status : String
  pub priority : String
  pub description : Option String
  pub confidence : Option fl.F32
  pub ranking : Option fl.F32
  pub position : Option (TrackPosition fl)
  pub region_id : Option String
  pub attributes_json : String

unfoldable pub alert_type_label : (ℤ → String) → ℤ → String
alert_type_label display v =
    if is_num v 0
    then "Unspecified"
    else if is_num v 1
    then "Information"
    else if is_num v 2
    then "Warning"
    else if is_num v 3
    then "Critical"
    else if is_num v 4
    then "Error"
    else if is_num v 5
    then "Fatal"
    else if is_num v 6
    then "ModeChange"
    else concat "Unknown(" (concat (display v) ")")

unfoldable pub alert_status_label : (ℤ → String) → ℤ → String
alert_status_label display v =
    if is_num v 0
    then "Unspecified"
    else if is_num v 1
    then "Active"
    else if is_num v 2
    then "Acknowledge"
    else if is_num v 3
    then "Reject"
    else if is_num v 4
    then "Ignore"
    else if is_num v 5
    then "Clear"
    else concat "Unknown(" (concat (display v) ")")

unfoldable pub priority_label : (ℤ → String) → ℤ → String
priority_label display v =
    if is_num v 0
    then "Unspecified"
    else if is_num v 1
    then "Low"
    else if is_num v 2
    then "Medium"
    else if is_num v 3
    then "High"
    else concat "Unknown(" (concat (display v) ")")

module _ {fl : Float} (js : Json fl) (display : ℤ → String) where
  open js use {Value, string, array, to_string}

  unfoldable pub alert_position : Option (LocationOneof fl) → Option (TrackPosition fl)
  alert_position (some (location loc)) = elim (location_to_track_position fl loc) [
    | ok placed ↦ some placed.0
    | err e ↦ none
  ]
  alert_position (some (range_bearing rb)) = none
  alert_position none = none

  unfoldable pub detection_ids : List AssociatedDetection → List Value
  detection_ids = filter_map (λ d. elim d.object_id [ none ↦ none | some id ↦ some (string id) ])

  unfoldable pub alert_attributes : String → Alert fl → Dict Value
  unfolding insert_text detection_ids
  alert_attributes node_id msg =
      let attrs : Dict Value =
        if not (is_empty msg.associated_detection)
        then Dict.insert "associated_detection_ids" (array (detection_ids msg.associated_detection))
            []
        else [] in
      let attrs' = insert_text fl js "additional_information" msg.additional_information attrs in
      let attrs'' = insert_text fl js "sapient_region_id" msg.region_id attrs' in
      Dict.insert "sapient_source_node_id" (string node_id) attrs''

  unfoldable pub from_alert : String → Alert fl → SapientAlertEvent fl
  unfolding alert_position alert_attributes alert_type_label alert_status_label priority_label
  from_alert node_id msg = record {
    alert_id = unwrap_or "" msg.alert_id;
    alert_type = alert_type_label display (unwrap_or (pos 0) msg.alert_type);
    status = alert_status_label display (unwrap_or (pos 0) msg.status);
    priority = priority_label display (unwrap_or (pos 0) msg.priority);
    description = msg.description;
    confidence = msg.confidence;
    ranking = msg.ranking;
    position = alert_position msg.location_oneof;
    region_id = msg.region_id;
    attributes_json = to_string (alert_attributes node_id msg);
  }
