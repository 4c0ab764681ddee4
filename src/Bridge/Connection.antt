-- ===== src/Bridge/Connection.antt =====
-- `run_connection` of peat-sapient/src/bridge.rs: one message of a connection, and its end. The local
-- variable `registered_node_id` of a connection is an argument and a result.
pub mod Replay
pub mod Acks
pub mod World
use peat_sapient.Base.{
  ℕ, String, Bool, true, false, Option, none, some, List, [], ◌∷◌, if◌then◌else◌, unwrap_or,
}
use peat_sapient.Base.Int.{ℤ}
use peat_sapient.Base.Dict
use peat_sapient.Float.{Float}
use peat_sapient.Json.{Json}
use peat_sapient.Error.{Result, ok, err}
use peat_sapient.Proto.{
  SapientMessage, Timestamp, Content, registration, registration_ack, status_report,
  detection_report, task, task_ack, alert, alert_ack, error,
}
use peat_sapient.TaskQueue.{ack, drain_expired, pending_for}
use peat_sapient.Registry
use peat_sapient.Registry.{upsert, get_position}
use peat_sapient.Bridge.Update.{
  SapientUpdate, registered, status_updated, detected, alerted, alert_acknowledged,
  task_acknowledged, ignored, node_disconnected,
}
use peat_sapient.Bridge.Route.{route_message}
use peat_sapient.Bridge.State.{BridgeInner, Clock, write, write_all, emit, discard}

module _ {fl : Float} where
  unfoldable pub make_registration_ack : Timestamp → String → String → SapientMessage fl
  make_registration_ack stamp hldmm_node_id destination_id = record {
    timestamp = some stamp;
    node_id = some hldmm_node_id;
    destination_id = some destination_id;
    content = some (registration_ack (record { acceptance = some true; ack_response_reason = [] }));
  }

  -- The block that finds the tasks to replay: expired tasks and their commands go first.
  unfoldable pub expire_tasks : Clock → BridgeInner fl → BridgeInner fl
  expire_tasks clock inner =
      let (q, expired) = drain_expired clock.drained inner.task_queue in
      record inner { task_queue = q; task_commands = discard expired inner.task_commands }

  -- The body of the `if` for the first registration of a connection.
  unfoldable pub register : Clock → ℕ → String → BridgeInner fl → BridgeInner fl
  unfolding expire_tasks make_registration_ack
  register clock conn node_id inner =
      let connected = record inner { connections = Dict.insert node_id conn inner.connections } in
      let acked =
        write conn (make_registration_ack clock.stamp inner.config.node_id node_id) connected in
      let swept = expire_tasks clock acked in
      write_all conn (pending_for node_id swept.task_queue) swept

  unfoldable pub is_registration : Option (Content fl) → Bool
  is_registration (some (registration _)) = true
  is_registration (some (registration_ack _)) = false
  is_registration (some (status_report _)) = false
  is_registration (some (detection_report _)) = false
  is_registration (some (task _)) = false
  is_registration (some (task_ack _)) = false
  is_registration (some (alert _)) = false
  is_registration (some (alert_ack _)) = false
  is_registration (some (error _)) = false
  is_registration none = false

  -- The `match &update`, the enrichment of an acknowledgement and the send to the application.
  unfoldable pub accept : Clock → SapientUpdate fl → BridgeInner fl → BridgeInner fl
  unfolding emit
  accept clock (registered node_id adv) inner =
      emit (registered node_id adv)
        (record inner { registry = upsert clock.heard node_id (some adv) none inner.registry })
  accept clock (status_updated node_id state delta) inner =
      emit (status_updated node_id state delta)
        (record inner { registry = upsert clock.heard node_id delta none inner.registry })
  accept clock (detected node_id track) inner =
      emit (detected node_id track)
        (record inner { registry = upsert clock.heard node_id none none inner.registry })
  accept clock (task_acknowledged node_id task_id command_id status reasons) inner =
      emit (task_acknowledged node_id task_id (Dict.get task_id inner.task_commands) status reasons)
        (record inner {
          task_queue = ack node_id task_id inner.task_queue;
          task_commands = Dict.remove task_id inner.task_commands;
        })
  accept clock (alerted node_id event) inner = emit (alerted node_id event) inner
  accept clock (alert_acknowledged node_id alert_id status reasons) inner =
      emit (alert_acknowledged node_id alert_id status reasons) inner
  accept clock (ignored reason) inner = emit (ignored reason) inner
  accept clock (node_disconnected node_id) inner = emit (node_disconnected node_id) inner

  unfoldable pub settle : Clock → Result (SapientUpdate fl) → BridgeInner fl → BridgeInner fl
  unfolding accept
  settle clock (ok update) inner = accept clock update inner
  settle clock (err e) inner = inner

  -- The code after the read loop.
  unfoldable pub on_close : Option String → BridgeInner fl → BridgeInner fl
  on_close none inner = inner
  on_close (some node_id) inner = emit (node_disconnected node_id) (record inner {
    connections = Dict.remove node_id inner.connections;
    registry = Registry.remove node_id inner.registry;
  })

  -- The first `if` of the loop.
  unfoldable pub greet :
      Clock → ℕ → Bool → Option String → String → BridgeInner fl → Option String × BridgeInner fl
  unfolding register
  greet clock conn true none node_id inner = (some node_id, register clock conn node_id inner)
  greet clock conn true (some j) node_id inner = (some j, inner)
  greet clock conn false local node_id inner = (local, inner)

  -- `route_message` and the `match` on its result.
  module _ (js : Json fl) (display : ℤ → String) where
    unfoldable pub handle : Clock → SapientMessage fl → BridgeInner fl → BridgeInner fl
    unfolding settle
    handle clock msg inner =
        let sensor_pos = get_position (unwrap_or "" msg.node_id) inner.registry in
        let (limiter, routed) =
          route_message js display clock.made clock.checked msg sensor_pos
            inner.detection_limiter in
        settle clock routed (record inner { detection_limiter = limiter })

    unfoldable pub on_message :
        Clock
        → ℕ
        → Option String
        → SapientMessage fl
        → BridgeInner fl
        → Option String × BridgeInner fl
    unfolding greet handle
    on_message clock conn local msg inner =
        let (local', greeted) =
          greet clock conn (is_registration msg.content) local (unwrap_or "" msg.node_id) inner in
        (local', handle clock msg greeted)
