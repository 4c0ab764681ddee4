-- ===== src/Bridge/Outbound/Alerts.antt =====
-- The acknowledgement of an alert in peat-sapient/src/bridge.rs, written and read.
use peat_sapient.Base.{ℕ, ◌≡◌, refl, String, Option, some, List}
use peat_sapient.Base.Int.{ℤ}
use peat_sapient.Float.{Float}
use peat_sapient.Json.{Json}
use peat_sapient.Error.{ok}
use peat_sapient.Proto.{Timestamp}
use peat_sapient.Schema.{TrackPosition}
use peat_sapient.RateLimit.{DetectionLimiter}
use peat_sapient.Bridge.Update.{
  AlertAckStatus, alert_status_from_proto, alert_status_to_proto, alert_acknowledged,
}
use peat_sapient.Bridge.Route.{route_message, route_content}
use peat_sapient.Bridge.Outbound.{make_alert_ack}

alert_status-round_trip :
    (status : AlertAckStatus)
    → alert_status_from_proto (some (alert_status_to_proto status)) ≡ status
unfolding alert_status_from_proto alert_status_to_proto
alert_status-round_trip AlertAckStatus.accepted = refl
alert_status-round_trip AlertAckStatus.rejected = refl
alert_status-round_trip AlertAckStatus.cancelled = refl

-- The message that `send_alert_ack` builds is routed to the update with the identifier of its
-- sender and the very alert, status and reasons, and the limiter is left alone.
pub route-make_alert_ack :
    {fl : Float} (js : Json fl) (display : ℤ → String) (made now : ℕ) (stamp : Timestamp)
    (source node_id alert_id : String) (status : AlertAckStatus) (reasons : List String)
    (sensor : Option (TrackPosition fl)) (limiter : Option (DetectionLimiter fl))
    → route_message js display made now
        (make_alert_ack stamp source node_id alert_id status reasons)
        sensor
        limiter
      ≡ (limiter, ok (alert_acknowledged source alert_id status reasons))
unfolding route_message route_content make_alert_ack
route-make_alert_ack js display made now stamp source node_id alert_id status reasons sensor
      limiter =
    rw alert_status-round_trip
