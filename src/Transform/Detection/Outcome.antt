-- ===== src/Transform/Detection/Outcome.antt =====
-- Which detections peat-sapient/src/transform/detection.rs turns into tracks.
use peat_sapient.Base.{String, Bool, false, ◌≡◌, refl, ◌∙◌, Option, none, some, arith}
use peat_sapient.Float.{Float}
use peat_sapient.Json.{Json}
use peat_sapient.Error.{Result, ok, err, ◌>>=◌}
use peat_sapient.Proto.{DetectionReport, LocationOneof, location, range_bearing, RangeBearing}
use peat_sapient.Schema.{TrackPosition}
use peat_sapient.Transform.Location.Errors.{is_ok, is_resolvable, location-resolved}
use peat_sapient.Transform.RangeBearing.{range_bearing_to_track_position, normalize_rb}
use peat_sapient.Transform.RangeBearing.Units.{is_normal, normalize_rb-is_ok}
use peat_sapient.Transform.Detection.{resolve, from_detection_report}

pub bind-is_ok {ℓ κ} :
    {A : Type ℓ} {B : Type κ} (f : A → B) (r : Result A) → is_ok (r >>= λ a. ok (f a)) ≡ is_ok r
bind-is_ok f (ok a) = refl
bind-is_ok f (err e) = refl

module _ {fl : Float} where
  -- A location of a known system, or a complete range and bearing of a sensor whose position is known.
  abbrev pub is_placeable : Option (TrackPosition fl) → Option (LocationOneof fl) → Bool
  is_placeable sensor (some (location loc)) = is_resolvable fl loc
  is_placeable (some sensor) (some (range_bearing rb)) = is_normal fl rb
  is_placeable none (some (range_bearing rb)) = false
  is_placeable sensor none = false

  range_bearing-is_ok :
      (rb : RangeBearing fl) (sensor : TrackPosition fl)
      → is_ok (range_bearing_to_track_position fl rb sensor) ≡ is_ok (normalize_rb fl rb)
  unfolding range_bearing_to_track_position
  range_bearing-is_ok rb sensor = ground arith

  pub resolve-is_ok :
      (sensor : Option (TrackPosition fl)) (lo : Option (LocationOneof fl))
      → is_ok (resolve fl sensor lo) ≡ is_placeable sensor lo
  unfolding resolve
  resolve-is_ok sensor (some (location loc)) = (location-resolved fl loc).0
  resolve-is_ok (some sensor) (some (range_bearing rb)) =
      range_bearing-is_ok rb sensor ∙ normalize_rb-is_ok fl rb
  resolve-is_ok none (some (range_bearing rb)) = refl
  resolve-is_ok none none = refl
  resolve-is_ok (some sensor) none = refl

  -- A detection becomes a track exactly when it can be placed.
  pub from_detection_report-is_ok :
      (js : Json fl) (node_id : String) (sensor : Option (TrackPosition fl))
      (msg : DetectionReport fl)
      → is_ok (from_detection_report fl js node_id sensor msg)
        ≡ is_placeable sensor msg.location_oneof
  unfolding from_detection_report
  from_detection_report-is_ok js node_id sensor msg =
      bind-is_ok _ (resolve fl sensor msg.location_oneof) ∙ resolve-is_ok sensor msg.location_oneof
