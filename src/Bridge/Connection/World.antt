-- ===== src/Bridge/Connection/World.antt =====
-- The bridge of peat-sapient/src/bridge.rs with its connections: messages and ends of connections
-- and calls of the application, and ticks of the watchdog on its registry, in any order. A handler
-- runs to its end before the next event.
pub mod Frame
pub mod Commands
pub mod Correlation
pub mod Live
pub mod Positions
pub mod Stranded
use peat_sapient.Base.{ℕ, ◌==◌, String, Option, none, some, List, [], ◌∷◌, if◌then◌else◌}
use peat_sapient.Base.Int.{ℤ}
use peat_sapient.Float.{Float}
use peat_sapient.Json.{Json}
use peat_sapient.Proto.{SapientMessage}
use peat_sapient.Watchdog.{sweep}
use peat_sapient.Bridge.Update.{AlertAckStatus}
use peat_sapient.Bridge.State
use peat_sapient.Bridge.State.{BridgeConfig, BridgeInner, Clock}
use peat_sapient.Bridge.Outbound.{send_task, send_alert_ack}
use peat_sapient.Bridge.Connection.{on_message, on_close}

-- `locals` has the variable `registered_node_id` of each connection.
pub record World (fl : Float) : Type 0 where
  pub inner : BridgeInner fl
  pub locals : ℕ → Option String

pub data Event (fl : Float) : Type 0 where
  message : Clock → ℕ → SapientMessage fl → Event fl
  closes : ℕ → Event fl
  sends : Clock → String → SapientMessage fl → Option String → Event fl
  acknowledges : Clock → String → String → AlertAckStatus → List String → Event fl
  -- The room for reports, the heartbeat interval and the time of a tick.
  sweeps : ℕ → ℕ → ℕ → Event fl

unfoldable pub assign : ℕ → Option String → (ℕ → Option String) → ℕ → Option String
assign conn local locals k = if k == conn then local else locals k

module _ {fl : Float} where
  unfoldable pub start : BridgeConfig fl → World fl
  unfolding State.new
  start config = record { inner = State.new config; locals = λ conn. none }

module _ {fl : Float} (js : Json fl) (display : ℤ → String) where
  unfoldable pub step : World fl → Event fl → World fl
  unfolding on_message on_close send_task send_alert_ack assign
  step w (message clock conn msg) =
      let (local, inner) = on_message js display clock conn (w.locals conn) msg w.inner in
      record { inner = inner; locals = assign conn local w.locals }
  step w (closes conn) = record {
    inner = on_close (w.locals conn) w.inner;
    locals = assign conn none w.locals;
  }
  step w (sends clock node_id msg command_id) = record w {
    inner = (send_task clock node_id msg command_id w.inner).0;
  }
  step w (acknowledges clock node_id alert_id status reasons) = record w {
    inner = (send_alert_ack clock node_id alert_id status reasons w.inner).0;
  }
  step w (sweeps room interval now) = record w {
    inner = record w.inner { registry = (sweep room interval now w.inner.registry).registry };
  }

  unfoldable pub run : World fl → List (Event fl) → World fl
  run w [] = w
  run w (e ∷ es) = run (step w e) es
