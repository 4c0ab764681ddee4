-- ===== src/Bridge/Route/Outcome.antt =====
-- Which messages `route_message` of peat-sapient/src/bridge.rs answers with an update.
use peat_sapient.Base.{
  ℕ, Bool, true, false, not, ◌||◌, ◌≡◌, refl, ◌∙◌, Option, none, some, unwrap_or, String,
}
use peat_sapient.Base.Int.{ℤ}
use peat_sapient.Float.{Float}
use peat_sapient.Json.{Json}
use peat_sapient.Proto.{
  SapientMessage, Content, DetectionReport, registration, registration_ack, status_report,
  detection_report, task, task_ack, alert, alert_ack, error,
}
use peat_sapient.Schema.{TrackPosition}
use peat_sapient.RateLimit.{DetectionLimiter}
use peat_sapient.Transform.Location.Errors.{is_ok}
use peat_sapient.Transform.Detection.Outcome.{bind-is_ok, is_placeable, from_detection_report-is_ok}
use peat_sapient.Transform.Detection.{from_detection_report}
use peat_sapient.Bridge.Update.{detected}
use peat_sapient.Bridge.Route.{admit, route_detection, route_content, route_message}

module _ {fl : Float} (js : Json fl) (display : ℤ → String) where
  -- The limiter and whether there is an update, for one content of a node.
  abbrev pub routed :
      ℕ
      → ℕ
      → String
      → Option (Content fl)
      → Option (TrackPosition fl)
      → Option (DetectionLimiter fl)
      → Option (DetectionLimiter fl) × Bool
  routed made now node_id (some (detection_report dr)) sensor limiter =
      let (limiter', forward) = admit made now node_id limiter in
      (limiter', not forward || is_placeable sensor dr.location_oneof)
  routed made now node_id (some (registration _)) sensor limiter = (limiter, true)
  routed made now node_id (some (registration_ack _)) sensor limiter = (limiter, true)
  routed made now node_id (some (status_report _)) sensor limiter = (limiter, true)
  routed made now node_id (some (task _)) sensor limiter = (limiter, true)
  routed made now node_id (some (task_ack _)) sensor limiter = (limiter, true)
  routed made now node_id (some (alert _)) sensor limiter = (limiter, true)
  routed made now node_id (some (alert_ack _)) sensor limiter = (limiter, true)
  routed made now node_id (some (error _)) sensor limiter = (limiter, true)
  routed made now node_id none sensor limiter = (limiter, true)

  route_detection-is_ok :
      (forward : Bool) (node_id : String) (sensor : Option (TrackPosition fl))
      (dr : DetectionReport fl)
      → is_ok (route_detection js display forward node_id sensor dr)
        ≡ (not forward || is_placeable sensor dr.location_oneof)
  unfolding route_detection
  route_detection-is_ok false node_id sensor dr = refl
  route_detection-is_ok true node_id sensor dr =
      bind-is_ok (detected node_id) (from_detection_report fl js node_id sensor dr)
      ∙ from_detection_report-is_ok js node_id sensor dr

  route_content-routed :
      (made now : ℕ) (node_id : String) (content : Option (Content fl))
      (sensor : Option (TrackPosition fl)) (limiter : Option (DetectionLimiter fl))
      → let (limiter', result) = route_content js display made now node_id content sensor limiter in
        (limiter', is_ok result) ≡ routed made now node_id content sensor limiter
  unfolding route_content
  route_content-routed made now node_id (some (detection_report dr)) sensor limiter =
      rw route_detection-is_ok
  route_content-routed made now node_id (some (registration _)) sensor limiter = refl
  route_content-routed made now node_id (some (registration_ack _)) sensor limiter = refl
  route_content-routed made now node_id (some (status_report _)) sensor limiter = refl
  route_content-routed made now node_id (some (task _)) sensor limiter = refl
  route_content-routed made now node_id (some (task_ack _)) sensor limiter = refl
  route_content-routed made now node_id (some (alert _)) sensor limiter = refl
  route_content-routed made now node_id (some (alert_ack _)) sensor limiter = refl
  route_content-routed made now node_id (some (error _)) sensor limiter = refl
  route_content-routed made now node_id none sensor limiter = refl

  -- Every message is answered with an update, except a detection that the limiter admits and that
  -- cannot be placed; and only detections are counted by the limiter.
  pub route_message-routed :
      (made now : ℕ) (msg : SapientMessage fl) (sensor : Option (TrackPosition fl))
      (limiter : Option (DetectionLimiter fl))
      → let (limiter', result) = route_message js display made now msg sensor limiter in
        (limiter', is_ok result)
        ≡ routed made now (unwrap_or "" msg.node_id) msg.content sensor limiter
  unfolding route_message
  route_message-routed made now msg sensor limiter =
      route_content-routed made now (unwrap_or "" msg.node_id) msg.content sensor limiter
