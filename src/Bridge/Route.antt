-- ===== src/Bridge/Route.antt =====
-- `route_message` and `content_label` of peat-sapient/src/bridge.rs. The two readings of the clock
-- that a rate limiter may take are the arguments `made` and `now`.
pub mod Outcome
use peat_sapient.Base.{ℕ, String, Bool, true, false, Option, none, some, concat, unwrap_or}
use peat_sapient.Base.Int.{ℤ}
use peat_sapient.Float.{Float}
use peat_sapient.Json.{Json}
use peat_sapient.Error.{Result, ok, err, ◌>>=◌}
use peat_sapient.Proto.{
  SapientMessage, Content, DetectionReport, registration, registration_ack, status_report,
  detection_report, task, task_ack, alert, alert_ack, error,
}
use peat_sapient.Schema.{TrackPosition}
use peat_sapient.RateLimit.{DetectionLimiter, check}
use peat_sapient.Transform.Registration.{from_registration}
use peat_sapient.Transform.Status.{from_status_report}
use peat_sapient.Transform.Detection.{from_detection_report}
use peat_sapient.Transform.Alert.{from_alert}
use peat_sapient.Bridge.Update.{
  SapientUpdate, registered, status_updated, detected, alerted, alert_acknowledged,
  task_acknowledged, ignored, task_status_from_proto, alert_status_from_proto,
}

unfoldable pub content_label : {fl : Float} → Content fl → String
content_label (registration _) = "Registration"
content_label (registration_ack _) = "RegistrationAck"
content_label (status_report _) = "StatusReport"
content_label (detection_report _) = "DetectionReport"
content_label (task _) = "Task"
content_label (task_ack _) = "TaskAck"
content_label (alert _) = "Alert"
content_label (alert_ack _) = "AlertAck"
content_label (error _) = "Error"

module _ {fl : Float} where
  -- Whether a detection passes the limiter, and the limiter afterwards.
  unfoldable pub admit :
      ℕ → ℕ → String → Option (DetectionLimiter fl) → Option (DetectionLimiter fl) × Bool
  admit made now node_id none = (none, true)
  admit made now node_id (some limiter) =
      let (limiter', forward) = check fl made now node_id limiter in (some limiter', forward)

module _ {fl : Float} (js : Json fl) (display : ℤ → String) where
  unfoldable pub route_detection :
      Bool → String → Option (TrackPosition fl) → DetectionReport fl → Result (SapientUpdate fl)
  route_detection false node_id sensor dr =
      ok (ignored (concat "detection rate-limited for node " node_id))
  route_detection true node_id sensor dr = do
    track ← from_detection_report fl js node_id sensor dr
    ok (detected node_id track)

  -- The `match msg.content`.
  unfoldable pub route_content :
      ℕ
      → ℕ
      → String
      → Option (Content fl)
      → Option (TrackPosition fl)
      → Option (DetectionLimiter fl)
      → Option (DetectionLimiter fl) × Result (SapientUpdate fl)
  unfolding admit route_detection content_label
  route_content made now node_id (some (registration reg)) sensor limiter =
      (limiter, ok (registered node_id (from_registration js node_id reg)))
  route_content made now node_id (some (status_report sr)) sensor limiter =
      let (state, delta) = from_status_report fl node_id sr in
      (limiter, ok (status_updated node_id state delta))
  route_content made now node_id (some (detection_report dr)) sensor limiter =
      let (limiter', forward) = admit made now node_id limiter in
      (limiter', route_detection forward node_id sensor dr)
  route_content made now node_id (some (alert a)) sensor limiter =
      (limiter, ok (alerted node_id (from_alert js display node_id a)))
  route_content made now node_id (some (task_ack ack)) sensor limiter = (
    limiter,
    ok (
        task_acknowledged node_id (unwrap_or "" ack.task_id) none
          (task_status_from_proto ack.task_status) ack.reason),
  )
  route_content made now node_id (some (alert_ack ack)) sensor limiter = (
    limiter,
    ok (
        alert_acknowledged node_id (unwrap_or "" ack.alert_id)
          (alert_status_from_proto ack.alert_ack_status) ack.reason),
  )
  route_content made now node_id (some (registration_ack ack)) sensor limiter = (
    limiter,
    ok (ignored (concat "no peat mapping for " (content_label {fl = fl} (registration_ack ack)))),
  )
  route_content made now node_id (some (task t)) sensor limiter =
      (limiter, ok (ignored (concat "no peat mapping for " (content_label {fl = fl} (task t)))))
  route_content made now node_id (some (error e)) sensor limiter =
      (limiter, ok (ignored (concat "no peat mapping for " (content_label {fl = fl} (error e)))))
  route_content made now node_id none sensor limiter =
      (limiter, ok (ignored "SapientMessage has no content"))

  unfoldable pub route_message :
      ℕ
      → ℕ
      → SapientMessage fl
      → Option (TrackPosition fl)
      → Option (DetectionLimiter fl)
      → Option (DetectionLimiter fl) × Result (SapientUpdate fl)
  unfolding route_content
  route_message made now msg sensor limiter =
      route_content made now (unwrap_or "" msg.node_id) msg.content sensor limiter
