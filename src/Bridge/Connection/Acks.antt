-- ===== src/Bridge/Connection/Acks.antt =====
-- A task of peat-sapient/src/bridge.rs from `send_task` to its acknowledgement.
pub mod Fresh
use mathlib.Core.List.{map-append, append-nil}
use peat_sapient.Base.{
  ℕ, String, Bool, true, false, not, ◌≡◌, ◌≢◌, refl, sym, ap, ◌∙◌, Option, none, some, List, [],
  ◌∷◌, ◌++◌, map, drop, retain, str_eq, eq_iff, eq_refl, arith, if◌then◌else◌, inl, inr, Bool-cases,
  Option-cases, unwrap_or, All, str_eq-ne, retain-append,
}
use peat_sapient.Base.Int.{ℤ}
use peat_sapient.Base.Dict
use peat_sapient.Base.Dict.{Dict, get-insert, get-remove}
use peat_sapient.Float.{Float}
use peat_sapient.Json.{Json}
use peat_sapient.Error.{Result, ok, err}
use peat_sapient.Proto.{SapientMessage, TaskAck, task_ack}
use peat_sapient.TaskQueue.{
  QueuedTask, TaskQueue, queue_of, make_room, enqueue, drain_expired, drain_queues, has_other_id,
  ack,
}
use peat_sapient.TaskQueue.Queues.{queue_of-enqueue, queue_of-ack, queue_of-drain, queued, surplus}
use peat_sapient.TaskQueue.Expiry.{is_fresh, all_tasks, drain-partition}
use peat_sapient.TaskQueue.Ack.{retain_others}
use peat_sapient.Bridge.Update.{task_acknowledged, task_status_from_proto}
use peat_sapient.Bridge.Route.{route_message, route_content}
use peat_sapient.Bridge.State.{BridgeInner, Clock, write, discard, emit}
use peat_sapient.Bridge.Outbound.{extract_task_id, record_command, queue_task, deliver, send_task}
use peat_sapient.Bridge.Outbound.Tasks.{mem, get-discard, deliver-fields}
use peat_sapient.Bridge.Connection.{greet, is_registration, settle, accept, handle, on_message}
use peat_sapient.Bridge.Connection.Acks.Fresh.{
  Others, retain-Others, drop-Others, queue_of-Others, mem-Others, mem-append, evicted-Others,
}

module _ {fl : Float} where
  -- A message of a node that acknowledges a task.
  abbrev pub acknowledges : String → String → TaskAck → SapientMessage fl
  acknowledges node_id task_id ack = record {
    timestamp = none;
    node_id = some node_id;
    destination_id = none;
    content = some (task_ack (record ack { task_id = some task_id }));
  }

  queue_task-keeps_command :
      (clock : Clock) (node_id task_id : String) (msg : SapientMessage fl) (inner : BridgeInner fl)
      → Others task_id (all_tasks inner.task_queue.queues)
      → Dict.get task_id (queue_task clock node_id task_id msg inner).task_commands
        ≡ Dict.get task_id inner.task_commands
  unfolding queue_task enqueue
  queue_task-keeps_command clock node_id task_id msg inner fresh =
      let now = clock.drained in
      let (q, expired) = drain_expired now inner.task_queue in
      let left = queue_of-Others task_id node_id inner.task_queue.queues fresh in
      rw (
        get-discard,
        mem-append task_id expired _
            (rw ((drain-partition now inner.task_queue).2)
              (mem-Others task_id _ (retain-Others task_id _ _ fresh)))
            (evicted-Others task_id q.max_depth (queue_of node_id q)
              (rw (queue_of-drain now node_id inner.task_queue) (retain-Others task_id _ _ left))),
      )

  queue_task-acked :
      (clock : Clock) (node_id task_id : String) (msg : SapientMessage fl) (inner : BridgeInner fl)
      → Others task_id (all_tasks inner.task_queue.queues)
      → let fresh = retain (is_fresh clock.drained) (queue_of node_id inner.task_queue) in
        queue_of node_id
          (ack node_id task_id (queue_task clock node_id task_id msg inner).task_queue)
        ≡ drop (surplus inner.task_queue.max_depth fresh) fresh
  unfolding queue_task drain_expired has_other_id queue_of
  queue_task-acked clock node_id task_id msg inner fresh =
      let live = retain (is_fresh clock.drained) (queue_of node_id inner.task_queue) in
      let kept = drop (surplus inner.task_queue.max_depth live) live in
      rw
        (
          queue_of-ack,
          eq_refl node_id,
          queue_of-enqueue,
          eq_refl node_id,
          (drain-partition clock.drained inner.task_queue).0 node_id,
          retain-append,
          eq_refl task_id,
          append-nil,
        )
        (retain_others task_id kept (
          drop-Others task_id _ live (
            retain-Others task_id _ _
              (queue_of-Others task_id node_id inner.task_queue.queues fresh))))

  -- Where no queued task has the identifier of a new one, sending it with a command and then
  -- receiving its acknowledgement, of any status and on any connection, emits one update, with the very
  -- command, the status and the reasons; the command is forgotten, and the node's queue is what it was without
  -- the tasks that were past their deadline or that gave way to the new one.
  pub send_task-acknowledged :
      (js : Json fl) (display : ℤ → String) (clock clock' : Clock) (conn : ℕ)
      (local : Option String) (node_id task_id command_id : String) (msg : SapientMessage fl)
      (answer : TaskAck) (inner : BridgeInner fl)
      → extract_task_id msg ≡ ok task_id
      → Others task_id (all_tasks inner.task_queue.queues)
      → let sent = (send_task clock node_id msg (some command_id) inner).0 in
        let inner' =
          (on_message js display clock' conn local (acknowledges node_id task_id answer) sent).1 in
        let fresh = retain (is_fresh clock.drained) (queue_of node_id inner.task_queue) in
        (inner'.updates
          ≡ inner.updates
            ++ task_acknowledged node_id task_id
                (some command_id)
                (task_status_from_proto answer.task_status)
                answer.reason
              ∷ [])
        × (Dict.get task_id inner'.task_commands ≡ none)
        × (queue_of node_id inner'.task_queue
            ≡ drop (surplus inner.task_queue.max_depth fresh) fresh)
  unfolding send_task on_message greet is_registration handle route_message route_content settle
      accept emit record_command
  send_task-acknowledged js display clock clock' conn local node_id task_id command_id msg answer
        inner h fresh =
      let recorded = record inner {
        task_commands = Dict.insert task_id command_id inner.task_commands;
      } in
      let kept = queue_task-keeps_command clock node_id task_id msg recorded fresh in
      rw (h, send_task, deliver-fields)
        (
          rw (kept, get-insert, eq_refl task_id),
          rw (get-remove, eq_refl task_id),
          queue_task-acked clock node_id task_id msg recorded fresh,
        )
