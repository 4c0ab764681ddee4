-- ===== src/Examples/Reports.antt =====
-- The transforms.
use peat_sapient.Base.{[], ◌≤◌, ◌≡◌, refl, true, some, filter_map, none}
use peat_sapient.Proto.{range_bearing, Alert, location}
use peat_sapient.Schema.{TrackPosition}
use peat_sapient.Transform.Zone.{
  codes, parse_utm_zone, parse_u8, is_northern_band, to_ascii_uppercase,
}
use peat_sapient.Transform.Zone.Parse.{parse_utm_zone-bounds}
use peat_sapient.Transform.Location.{location_to_track_position}
use peat_sapient.Transform.Location.Errors.{is_ok, is_resolvable, IsConsistent, location-resolved}
use peat_sapient.Transform.RangeBearing.{normalize_rb, km_to_metres}
use peat_sapient.Transform.Location.{feet_to_metres}
use peat_sapient.Transform.RangeBearing.Units.{in_system, scaled, normalize_rb-units}
use peat_sapient.Transform.Detection.{from_detection_report}
use peat_sapient.Transform.Detection.Outcome.{is_placeable, from_detection_report-is_ok}
use peat_sapient.Transform.Status.{from_status_report}
use peat_sapient.Transform.Status.Delta.{Agree, from_status_report-Agree}
use peat_sapient.Transform.Registration.{from_registration}
use peat_sapient.Transform.Registration.Order.{stated_type, NamesAll, from_registration-NamesAll}
use peat_sapient.Base.Int.{pos}
use peat_sapient.Examples.Setup.{
  numbers, texts, a_location, a_bearing, detection_at, a_status, a_registration,
}

parse_utm_zone-bounds_example :
    (parse_u8 (codes "30") ≡ some 30)
    × (1 ≤ 30)
    × (30 ≤ 60)
    × (true ≡ is_northern_band (to_ascii_uppercase 85))
unfolding parse_utm_zone
parse_utm_zone-bounds_example =
    parse_utm_zone-bounds (codes " 30U") (codes "30") 85 30 true refl refl

location-resolved_example :
    (is_ok (location_to_track_position numbers a_location) ≡ is_resolvable numbers a_location)
    × IsConsistent numbers (location_to_track_position numbers a_location)
location-resolved_example = location-resolved numbers a_location

normalize_rb-units_example :
    (normalize_rb numbers (in_system numbers 3 a_bearing)
      ≡ normalize_rb numbers
          (in_system numbers 1 (scaled numbers (km_to_metres numbers) a_bearing)))
    × (normalize_rb numbers (in_system numbers 4 a_bearing)
        ≡ normalize_rb numbers
            (in_system numbers 2 (scaled numbers (km_to_metres numbers) a_bearing)))
    × (normalize_rb numbers (in_system numbers 5 a_bearing)
        ≡ normalize_rb numbers
            (in_system numbers 1 (scaled numbers (feet_to_metres numbers) a_bearing)))
    × (normalize_rb numbers (in_system numbers 6 a_bearing)
        ≡ normalize_rb numbers
            (in_system numbers 2 (scaled numbers (feet_to_metres numbers) a_bearing)))
normalize_rb-units_example = normalize_rb-units numbers a_bearing

abbrev sensor : TrackPosition numbers
sensor = record { latitude = 52; longitude = 4; altitude = 10; cep_m = 1; vertical_error_m = 1 }

from_detection_report-is_ok_example :
    is_ok (
      from_detection_report numbers texts "radar"
        (some sensor)
        (detection_at (range_bearing a_bearing)))
    ≡ is_placeable (some sensor) (some (range_bearing a_bearing))
from_detection_report-is_ok_example =
    from_detection_report-is_ok texts "radar" (some sensor) (detection_at (range_bearing a_bearing))

from_status_report-Agree_example :
    let (state, delta) = from_status_report numbers "radar" a_status in
    (state.fuel_minutes ≤ 100) × Agree numbers a_status state delta
from_status_report-Agree_example = from_status_report-Agree numbers "radar" a_status

from_registration-NamesAll_example :
    NamesAll texts "camera-1"
      (filter_map stated_type a_registration.node_definition)
      (from_registration texts "camera-1" a_registration).capabilities
from_registration-NamesAll_example = from_registration-NamesAll texts "camera-1" a_registration

abbrev an_alert : Alert numbers
an_alert = record {
  alert_id = some "a1";
  alert_type = some (pos 2);
  status = some (pos 9);
  description = none;
  location_oneof = some (location a_location);
  region_id = none;
  priority = none;
  ranking = none;
  confidence = none;
  associated_detection = [];
  additional_information = none;
}
