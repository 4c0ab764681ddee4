-- ===== src/Bridge/Connection/World/Frame.antt =====
-- What the calls of the application leave alone in peat-sapient/src/bridge.rs.
use peat_sapient.Base.{String, ◌≡◌, refl, Option, List, inl, inr, Option-cases}
use peat_sapient.Base.Dict
use peat_sapient.Base.Dict.{Dict, get-insert, get-remove}
use peat_sapient.Float.{Float}
use peat_sapient.Error.{Result, ok, err}
use peat_sapient.Proto.{SapientMessage}
use peat_sapient.Bridge.Update.{AlertAckStatus}
use peat_sapient.Bridge.State.{BridgeInner, Clock, write}
use peat_sapient.Bridge.Outbound.{extract_task_id, send_task, send_alert_ack, queue_task}
use peat_sapient.Bridge.Outbound.Tasks.{deliver-fields}

module _ {fl : Float} where
  pub send_task-keeps :
      (clock : Clock) (node_id : String) (msg : SapientMessage fl) (c : Option String)
      (inner : BridgeInner fl)
      → ((send_task clock node_id msg c inner).0.connections ≡ inner.connections)
        × ((send_task clock node_id msg c inner).0.registry ≡ inner.registry)
  unfolding send_task queue_task
  send_task-keeps clock node_id msg c inner = go (extract_task_id msg) refl
    where
      go :
          (r : Result String)
          → extract_task_id msg ≡ r
          → ((send_task clock node_id msg c inner).0.connections ≡ inner.connections)
            × ((send_task clock node_id msg c inner).0.registry ≡ inner.registry)
      go (ok task_id) e = rw (e, send_task, deliver-fields) (refl, refl)
      go (err x) e = rw (e, send_task) (refl, refl)

  pub send_alert_ack-keeps :
      (clock : Clock) (node_id id : String) (s : AlertAckStatus) (r : List String)
      (inner : BridgeInner fl)
      → ((send_alert_ack clock node_id id s r inner).0.connections ≡ inner.connections)
        × ((send_alert_ack clock node_id id s r inner).0.registry ≡ inner.registry)
  unfolding send_alert_ack write
  send_alert_ack-keeps clock node_id id s r inner =
      elim (Option-cases (Dict.get node_id inner.connections)) [
        | inl e ↦ rw (e, send_alert_ack) (refl, refl)
        | inr (conn, e) ↦ rw (e, send_alert_ack) (refl, refl)
      ]
