-- ===== src/Bridge/Outbound.antt =====
-- `send_task`, `extract_task_id` and `send_alert_ack` of peat-sapient/src/bridge.rs. Each lock is
-- taken in the order of the source; a call runs to its end before the next.
pub mod Tasks
pub mod Alerts
pub mod Commands
use peat_sapient.Base.{
  ℕ, String, Option, none, some, List, [], ◌∷◌, ◌++◌, str_eq, if◌then◌else◌, unwrap_or,
}
use peat_sapient.Base.Dict
use peat_sapient.Base.Dict.{Dict}
use peat_sapient.Float.{Float}
use peat_sapient.Error.{Result, ok, err, mapping_error, node_not_found}
use peat_sapient.Proto.{
  SapientMessage, Timestamp, Content, Task, registration, registration_ack, status_report,
  detection_report, task, task_ack, alert, alert_ack, error,
}
use peat_sapient.TaskQueue.{enqueue, drain_expired}
use peat_sapient.Bridge.Update.{AlertAckStatus, alert_status_to_proto}
use peat_sapient.Bridge.State.{BridgeInner, Clock, write, discard}

unfoldable pub task_id_of : {fl : Float} → Option (Content fl) → Result String
task_id_of (some (task t)) =
    if str_eq (unwrap_or "" t.task_id) ""
    then err (mapping_error "task_id" "Task message has no task_id")
    else ok (unwrap_or "" t.task_id)
task_id_of (some (registration _)) =
    err (mapping_error "content" "send_task requires a SapientMessage with Task content")
task_id_of (some (registration_ack _)) =
    err (mapping_error "content" "send_task requires a SapientMessage with Task content")
task_id_of (some (status_report _)) =
    err (mapping_error "content" "send_task requires a SapientMessage with Task content")
task_id_of (some (detection_report _)) =
    err (mapping_error "content" "send_task requires a SapientMessage with Task content")
task_id_of (some (task_ack _)) =
    err (mapping_error "content" "send_task requires a SapientMessage with Task content")
task_id_of (some (alert _)) =
    err (mapping_error "content" "send_task requires a SapientMessage with Task content")
task_id_of (some (alert_ack _)) =
    err (mapping_error "content" "send_task requires a SapientMessage with Task content")
task_id_of (some (error _)) =
    err (mapping_error "content" "send_task requires a SapientMessage with Task content")
task_id_of none =
    err (mapping_error "content" "send_task requires a SapientMessage with Task content")

unfoldable pub extract_task_id : {fl : Float} → SapientMessage fl → Result String
unfolding task_id_of
extract_task_id msg = task_id_of msg.content

unfoldable pub record_command : String → Option String → Dict String → Dict String
record_command task_id none cmds = cmds
record_command task_id (some command_id) cmds = Dict.insert task_id command_id cmds

module _ {fl : Float} where
  -- The section of `send_task` that holds the lock of the queue.
  unfoldable pub queue_task :
      Clock → String → String → SapientMessage fl → BridgeInner fl → BridgeInner fl
  queue_task clock node_id task_id msg inner =
      let (q, expired) = drain_expired clock.drained inner.task_queue in
      let (q', evicted) = enqueue clock.enqueued node_id task_id msg q in
      record inner {
        task_queue = q';
        task_commands =
            discard (expired ++ elim evicted [ none ↦ [] | some id ↦ id ∷ [] ]) inner.task_commands;
      }

  -- The section of `send_task` that holds the lock of the connections.
  unfoldable pub deliver : String → SapientMessage fl → BridgeInner fl → BridgeInner fl
  deliver node_id msg inner = elim (Dict.get node_id inner.connections) [
    | none ↦ inner
    | some conn ↦ write conn msg inner
  ]

  unfoldable pub send_task :
      Clock
      → String
      → SapientMessage fl
      → Option String
      → BridgeInner fl
      → BridgeInner fl × Result (Unit {0})
  unfolding extract_task_id record_command queue_task deliver
  send_task clock node_id msg command_id inner = elim (extract_task_id msg) [
    | err e ↦ (inner, err e)
    | ok task_id ↦
        let recorded = record inner {
          task_commands = record_command task_id command_id inner.task_commands;
        } in
        (deliver node_id msg (queue_task clock node_id task_id msg recorded), ok tt)
  ]

  -- The message that `send_alert_ack` builds.
  unfoldable pub make_alert_ack :
      Timestamp → String → String → String → AlertAckStatus → List String → SapientMessage fl
  make_alert_ack stamp source node_id alert_id status reasons = record {
    timestamp = some stamp;
    node_id = some source;
    destination_id = some node_id;
    content = some (
        alert_ack (record {
          alert_id = some alert_id;
          reason = reasons;
          alert_ack_status = some (alert_status_to_proto status);
        }));
  }

  unfoldable pub send_alert_ack :
      Clock
      → String
      → String
      → AlertAckStatus
      → List String
      → BridgeInner fl
      → BridgeInner fl × Result (Unit {0})
  unfolding make_alert_ack
  send_alert_ack clock node_id alert_id status reasons inner =
      elim (Dict.get node_id inner.connections) [
        | none ↦ (inner, err (node_not_found node_id))
        | some conn ↦ (
          write conn
              (make_alert_ack clock.stamp inner.config.node_id node_id alert_id status reasons)
              inner,
          ok tt,
        )
      ]
