-- ===== src/Bridge/Connection/World/Live.antt =====
-- Which connection a node has, in peat-sapient/src/bridge.rs.
use peat_sapient.Base.{
  ℕ, ==_iff, String, Bool, true, false, ◌≡◌, refl, Option, none, some, List, [], ◌∷◌, eq_iff, arith,
  unwrap_or,
}
use peat_sapient.Base.Int.{ℤ}
use peat_sapient.Base.Dict
use peat_sapient.Base.Dict.{Dict, get-insert, get-remove}
use peat_sapient.Float.{Float}
use peat_sapient.Json.{Json}
use peat_sapient.Error.{Result, ok, err}
use peat_sapient.Bridge.Update.{
  SapientUpdate, registered, status_updated, detected, alerted, alert_acknowledged,
  task_acknowledged, ignored, node_disconnected,
}
use peat_sapient.Bridge.State
use peat_sapient.Bridge.State.{BridgeConfig, BridgeInner, Clock, write, write_all, emit}
use peat_sapient.Bridge.Connection.{
  accept, settle, greet, register, expire_tasks, handle, on_message, on_close, is_registration,
}
use peat_sapient.Bridge.Connection.Replay.{write_all-appends}
use peat_sapient.Bridge.Connection.World.{
  World, Event, message, closes, sends, acknowledges, sweeps, assign, start, step, run,
}
use peat_sapient.Bridge.Connection.World.Frame.{send_task-keeps, send_alert_ack-keeps}

-- Every node that has a connection is the one that this connection registered as.
abbrev IsLive : Dict ℕ → (ℕ → Option String) → Type 0
IsLive connections locals =
    (j : String) (conn : ℕ) → Dict.get j connections ≡ some conn → locals conn ≡ some j

module _ {fl : Float} where
  pub settle-connections :
      (clock : Clock) (routed : Result (SapientUpdate fl)) (inner : BridgeInner fl)
      → (settle clock routed inner).connections ≡ inner.connections
  unfolding settle accept emit
  settle-connections clock (err e) inner = refl
  settle-connections clock (ok (registered node_id adv)) inner = refl
  settle-connections clock (ok (status_updated node_id state delta)) inner = refl
  settle-connections clock (ok (detected node_id track)) inner = refl
  settle-connections clock (ok (task_acknowledged node_id id c s r)) inner = refl
  settle-connections clock (ok (alerted node_id event)) inner = refl
  settle-connections clock (ok (alert_acknowledged node_id id s r)) inner = refl
  settle-connections clock (ok (ignored reason)) inner = refl
  settle-connections clock (ok (node_disconnected node_id)) inner = refl

  greet-IsLive :
      (clock : Clock) (conn : ℕ) (b : Bool) (locals : ℕ → Option String) (local : Option String)
      (node_id : String) (inner : BridgeInner fl)
      → locals conn ≡ local
      → IsLive inner.connections locals
      → let (local', inner') = greet clock conn b local node_id inner in
        IsLive inner'.connections (assign conn local' locals)
  unfolding greet register write expire_tasks assign
  greet-IsLive clock conn true locals none node_id inner l h = rw write_all-appends λ j c e.
      ground
        (arith, ==_iff c conn, eq_iff node_id j, h j c, get-insert j node_id conn inner.connections)
  greet-IsLive clock conn true locals (some i) node_id inner l h =
      λ j c e. ground (arith, ==_iff c conn, h j c)
  greet-IsLive clock conn false locals local node_id inner l h =
      λ j c e. ground (arith, ==_iff c conn, h j c)

  close-IsLive :
      (conn : ℕ) (locals : ℕ → Option String) (local : Option String) (inner : BridgeInner fl)
      → locals conn ≡ local
      → IsLive inner.connections locals
      → IsLive (on_close local inner).connections (assign conn none locals)
  unfolding on_close emit assign
  close-IsLive conn locals none inner l h = λ j c e. ground (arith, ==_iff c conn, h j c)
  close-IsLive conn locals (some i) inner l h =
      λ j c e. ground (arith, ==_iff c conn, eq_iff i j, h j c, get-remove j i inner.connections)

module _ {fl : Float} (js : Json fl) (display : ℤ → String) where
  step-IsLive :
      (w : World fl) (e : Event fl)
      → IsLive w.inner.connections w.locals
      → let w' = step js display w e in IsLive w'.inner.connections w'.locals
  unfolding step on_message handle
  step-IsLive w (message clock conn msg) h = rw settle-connections (
      greet-IsLive clock conn (is_registration msg.content) w.locals (w.locals conn)
        (unwrap_or "" msg.node_id) w.inner refl h)
  step-IsLive w (closes conn) h = close-IsLive conn w.locals (w.locals conn) w.inner refl h
  step-IsLive w (sends clock node_id msg c) h = rw (send_task-keeps clock node_id msg c w.inner).0 h
  step-IsLive w (acknowledges clock node_id id s r) h =
      rw (send_alert_ack-keeps clock node_id id s r w.inner).0 h
  step-IsLive w (sweeps room interval now) h = h

  run-IsLive :
      (w : World fl) (es : List (Event fl))
      → IsLive w.inner.connections w.locals
      → let w' = run js display w es in IsLive w'.inner.connections w'.locals
  unfolding run
  run-IsLive w [] h = h
  run-IsLive w (e ∷ es) h = run-IsLive (step js display w e) es (step-IsLive w e h)

  -- After any events, in any order, the connection that a node's tasks and acknowledgements go to
  -- is open and is one that registered as this node.
  pub connection-registered :
      (config : BridgeConfig fl) (es : List (Event fl)) (j : String) (conn : ℕ)
      → Dict.get j (run js display (start config) es).inner.connections ≡ some conn
      → (run js display (start config) es).locals conn ≡ some j
  unfolding start State.new Dict.get
  connection-registered config es = run-IsLive (start config) es (λ j conn e. cc)
