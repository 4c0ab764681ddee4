-- ===== src/Transform/Alert/Position.antt =====
-- Where peat-sapient/src/transform/alert.rs places an alert.
use peat_sapient.Base.{String, Bool, false, ◌≡◌, refl, ◌∙◌, Option, none, some, is_some}
use peat_sapient.Base.Int.{ℤ}
use peat_sapient.Float.{Float}
use peat_sapient.Json.{Json}
use peat_sapient.Error.{Result, ok, err}
use peat_sapient.Proto.{Alert, LocationOneof, location, range_bearing}
use peat_sapient.Schema.{TrackPosition, PositionError}
use peat_sapient.Transform.Location.{location_to_track_position}
use peat_sapient.Transform.Location.Errors.{is_ok, is_resolvable, location-resolved}
use peat_sapient.Transform.Detection.{resolve}
use peat_sapient.Transform.Alert.{alert_position, from_alert}

module _ {fl : Float} (js : Json fl) (display : ℤ → String) where
  -- The position of a resolved location, and none of an error.
  abbrev pub position_of : Result (TrackPosition fl × PositionError fl) → Option (TrackPosition fl)
  position_of (ok placed) = some placed.0
  position_of (err e) = none

  abbrev pub is_located : Option (LocationOneof fl) → Bool
  is_located (some (location loc)) = is_resolvable fl loc
  is_located (some (range_bearing rb)) = false
  is_located none = false

  is_some-position_of :
      (r : Result (TrackPosition fl × PositionError fl)) → is_some (position_of r) ≡ is_ok r
  is_some-position_of (ok placed) = refl
  is_some-position_of (err e) = refl

  alert_position-resolve :
      (lo : Option (LocationOneof fl))
      → alert_position js display lo ≡ position_of (resolve fl none lo)
  unfolding alert_position resolve
  alert_position-resolve (some (location loc)) = by_result (location_to_track_position fl loc)
    where
      by_result :
          (r : Result (TrackPosition fl × PositionError fl))
          → elim r [ ok placed ↦ some placed.0 | err e ↦ none ] ≡ position_of r
      by_result (ok placed) = refl
      by_result (err e) = refl
  alert_position-resolve (some (range_bearing rb)) = refl
  alert_position-resolve none = refl

  is_some-alert_position :
      (lo : Option (LocationOneof fl)) → is_some (alert_position js display lo) ≡ is_located lo
  unfolding resolve
  is_some-alert_position (some (location loc)) =
      rw (alert_position-resolve (some (location loc)))
        (is_some-position_of (location_to_track_position fl loc) ∙ (location-resolved fl loc).0)
  is_some-alert_position (some (range_bearing rb)) =
      rw (alert_position-resolve (some (range_bearing rb)))
  is_some-alert_position none = rw (alert_position-resolve none)

  -- An alert has the position that a detection at the same place, by a sensor of unknown position,
  -- would have; it has one exactly when its location can be resolved.
  pub from_alert-position :
      (node_id : String) (msg : Alert fl)
      → ((from_alert js display node_id msg).position
          ≡ position_of (resolve fl none msg.location_oneof))
        × (is_some (from_alert js display node_id msg).position ≡ is_located msg.location_oneof)
  unfolding from_alert
  from_alert-position node_id msg =
      (alert_position-resolve msg.location_oneof, is_some-alert_position msg.location_oneof)
