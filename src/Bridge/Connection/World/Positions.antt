-- ===== src/Bridge/Connection/World/Positions.antt =====
-- The sensor positions that peat-sapient/src/bridge.rs knows.
use peat_sapient.Watchdog.{notify, sweep, expired}
use peat_sapient.Base.{
  zero, suc, ℕ, String, Bool, true, false, ◌≡◌, refl, Option, none, some, List, [], ◌∷◌, arith,
  unwrap_or,
}
use peat_sapient.Base.Int.{ℤ}
use peat_sapient.Base.Dict
use peat_sapient.Base.Dict.{Dict, get-insert, get-remove}
use peat_sapient.Float.{Float}
use peat_sapient.Json.{Json}
use peat_sapient.Error.{Result, ok, err}
use peat_sapient.Proto.{SapientMessage}
use peat_sapient.Schema.{CapabilityAdvertisement, TrackPosition}
use peat_sapient.Registry
use peat_sapient.Registry.{NodeRegistry, upsert, get_position, new_registry, new_node, refresh}
use peat_sapient.Bridge.Update.{
  SapientUpdate, registered, status_updated, detected, alerted, alert_acknowledged,
  task_acknowledged, ignored, node_disconnected,
}
use peat_sapient.Bridge.Route.{route_message}
use peat_sapient.Bridge.State
use peat_sapient.Bridge.State.{BridgeConfig, BridgeInner, Clock, write, write_all, emit}
use peat_sapient.Bridge.Connection.{
  accept, settle, greet, register, expire_tasks, handle, on_message, on_close, is_registration,
}
use peat_sapient.Bridge.Connection.Replay.{write_all-appends}
use peat_sapient.Bridge.Connection.World.{
  World, Event, message, closes, sends, acknowledges, sweeps, start, step, run,
}
use peat_sapient.Registry.History.{get_position-upsert}
use peat_sapient.Bridge.Connection.World.Frame.{send_task-keeps, send_alert_ack-keeps}

module _ {fl : Float} where
  -- No node has a position.
  abbrev pub IsBlind : NodeRegistry (CapabilityAdvertisement fl) (TrackPosition fl) → Type 0
  IsBlind reg = (j : String) → get_position j reg ≡ none

  upsert-IsBlind :
      (now : ℕ) (k : String) (c : Option (CapabilityAdvertisement fl))
      (reg : NodeRegistry (CapabilityAdvertisement fl) (TrackPosition fl))
      → IsBlind reg
      → IsBlind (upsert now k c none reg)
  upsert-IsBlind now k c reg h j = ground (arith, get_position-upsert now j k c none reg, h j)

  remove-IsBlind :
      (k : String) (reg : NodeRegistry (CapabilityAdvertisement fl) (TrackPosition fl))
      → IsBlind reg
      → IsBlind (Registry.remove k reg)
  unfolding get_position Registry.remove
  remove-IsBlind k reg h j = ground (arith, get-remove j k reg, h j)

  settle-IsBlind :
      (clock : Clock) (routed : Result (SapientUpdate fl)) (inner : BridgeInner fl)
      → IsBlind inner.registry
      → IsBlind (settle clock routed inner).registry
  unfolding settle accept emit
  settle-IsBlind clock (err e) inner h = h
  settle-IsBlind clock (ok (registered node_id adv)) inner h =
      upsert-IsBlind clock.heard node_id (some adv) inner.registry h
  settle-IsBlind clock (ok (status_updated node_id state delta)) inner h =
      upsert-IsBlind clock.heard node_id delta inner.registry h
  settle-IsBlind clock (ok (detected node_id track)) inner h =
      upsert-IsBlind clock.heard node_id none inner.registry h
  settle-IsBlind clock (ok (task_acknowledged node_id id c s r)) inner h = h
  settle-IsBlind clock (ok (alerted node_id event)) inner h = h
  settle-IsBlind clock (ok (alert_acknowledged node_id id s r)) inner h = h
  settle-IsBlind clock (ok (ignored reason)) inner h = h
  settle-IsBlind clock (ok (node_disconnected node_id)) inner h = h

  greet-registry :
      (clock : Clock) (conn : ℕ) (b : Bool) (local : Option String) (node_id : String)
      (inner : BridgeInner fl)
      → (greet clock conn b local node_id inner).1.registry ≡ inner.registry
  unfolding greet register expire_tasks write
  greet-registry clock conn true none node_id inner = rw write_all-appends
  greet-registry clock conn true (some i) node_id inner = refl
  greet-registry clock conn false local node_id inner = refl

  notify-IsBlind :
      (room : ℕ) (ks : List String)
      (reg : NodeRegistry (CapabilityAdvertisement fl) (TrackPosition fl))
      → IsBlind reg
      → IsBlind (notify room ks reg).registry
  unfolding notify
  notify-IsBlind room [] reg h = h
  notify-IsBlind zero (k ∷ ks) reg h = remove-IsBlind k reg h
  notify-IsBlind (suc room) (k ∷ ks) reg h =
      notify-IsBlind room ks (Registry.remove k reg) (remove-IsBlind k reg h)

  sweep-IsBlind :
      (room interval now : ℕ) (reg : NodeRegistry (CapabilityAdvertisement fl) (TrackPosition fl))
      → IsBlind reg
      → IsBlind (sweep room interval now reg).registry
  unfolding sweep
  sweep-IsBlind room interval now reg h = notify-IsBlind room (expired interval now reg) reg h

  close-IsBlind :
      (local : Option String) (inner : BridgeInner fl)
      → IsBlind inner.registry
      → IsBlind (on_close local inner).registry
  unfolding on_close emit
  close-IsBlind none inner h = h
  close-IsBlind (some node_id) inner h = remove-IsBlind node_id inner.registry h

module _ {fl : Float} (js : Json fl) (display : ℤ → String) where
  handle-IsBlind :
      (clock : Clock) (msg : SapientMessage fl) (inner : BridgeInner fl)
      → IsBlind inner.registry
      → IsBlind (handle js display clock msg inner).registry
  unfolding handle
  handle-IsBlind clock msg inner h =
      let (limiter, routed) =
        route_message js display clock.made clock.checked msg
          (get_position (unwrap_or "" msg.node_id) inner.registry) inner.detection_limiter in
      settle-IsBlind clock routed (record inner { detection_limiter = limiter }) h

  step-IsBlind :
      (w : World fl) (e : Event fl)
      → IsBlind w.inner.registry
      → IsBlind (step js display w e).inner.registry
  unfolding step on_message handle
  step-IsBlind w (message clock conn msg) h =
      let local = w.locals conn in
      let node_id = unwrap_or "" msg.node_id in
      handle-IsBlind clock msg
        (greet clock conn (is_registration msg.content) local node_id w.inner).1
        (rw greet-registry h)
  step-IsBlind w (closes conn) h = close-IsBlind (w.locals conn) w.inner h
  step-IsBlind w (sends clock node_id msg c) h =
      rw (send_task-keeps clock node_id msg c w.inner).1 h
  step-IsBlind w (acknowledges clock node_id id s r) h =
      rw (send_alert_ack-keeps clock node_id id s r w.inner).1 h
  step-IsBlind w (sweeps room interval now) h = sweep-IsBlind room interval now w.inner.registry h

  run-IsBlind :
      (w : World fl) (es : List (Event fl))
      → IsBlind w.inner.registry
      → IsBlind (run js display w es).inner.registry
  unfolding run
  run-IsBlind w [] h = h
  run-IsBlind w (e ∷ es) h = run-IsBlind (step js display w e) es (step-IsBlind w e h)

  -- Whatever the sensors send, status reports with their location included, the bridge never knows
  -- the position of a sensor.
  pub get_position-never :
      (config : BridgeConfig fl) (es : List (Event fl)) (j : String)
      → get_position j (run js display (start config) es).inner.registry ≡ none
  unfolding start State.new get_position new_registry Dict.get
  get_position-never config es = run-IsBlind (start config) es (λ j. refl)
