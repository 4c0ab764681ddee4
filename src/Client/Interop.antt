-- ===== src/Client/Interop.antt =====
-- The bridge of peat-sapient/src/bridge.rs and the compliance client as the two ends of a connection.
use peat_sapient.Base.{ℕ, ◌+◌, String, ◌≡◌, refl, Option, none, some, [], ◌∷◌, ◌++◌, drop, retain}
use peat_sapient.Base.Int.{ℤ, pos}
use peat_sapient.Base.Dict
use peat_sapient.Float.{Float}
use peat_sapient.Json.{Json}
use peat_sapient.Error.{ok}
use peat_sapient.Proto.{SapientMessage, Timestamp, Task, TaskAck, task}
use peat_sapient.TaskQueue.{queue_of}
use peat_sapient.TaskQueue.Queues.{surplus}
use peat_sapient.TaskQueue.Expiry.{is_fresh, all_tasks}
use peat_sapient.Bridge.Update.{TaskAckStatus, task_acknowledged, task_status_from_proto}
use peat_sapient.Bridge.Route.{route_message, route_content}
use peat_sapient.Bridge.State.{BridgeInner, Clock}
use peat_sapient.Bridge.Outbound.{extract_task_id, send_task}
use peat_sapient.Bridge.Connection.{on_message, greet, is_registration, handle, settle}
use peat_sapient.Bridge.Connection.Acks.{acknowledges, send_task-acknowledged}
use peat_sapient.Bridge.Connection.Acks.Fresh.{Others}
use peat_sapient.Client.{Made, message, client_task_ack}
use peat_sapient.Client.Exchange.{Session, answer_task, answer_content, send_step, pass}

abbrev acceptance : TaskAck
acceptance = record {
  task_id = none;
  task_status = some (pos 1);
  reason = "Accepted by peat-sapient compliance client" ∷ [];
}

module _ {fl : Float} where
  -- A message with a task.
  abbrev pub commands : Timestamp → String → Option String → String → Task → SapientMessage fl
  commands stamp sender destination task_id t =
      message stamp sender destination (task (record t { task_id = some task_id }))

  -- The client's answer to it.
  abbrev pub reply : Made → String → String → Task → SapientMessage fl
  reply made sender task_id t =
      client_task_ack made (some sender) (record t { task_id = some task_id })

  on_message-reply :
      (js : Json fl) (display : ℤ → String) (clock : Clock) (conn : ℕ) (local : Option String)
      (made : Made) (sender task_id : String) (t : Task) (inner : BridgeInner fl)
      → on_message js display clock conn local (reply made sender task_id t) inner
        ≡ on_message js display clock conn local
            (acknowledges made.node_id task_id acceptance)
            inner
  unfolding client_task_ack message on_message greet is_registration handle route_message
      route_content settle
  on_message-reply js display clock conn local made sender task_id t inner = refl

  -- Where a task message has an identifier that no queued task has, the bridge's call of `send_task`
  -- with a command for the client's node, the client's handling of that message with a send that
  -- succeeds, and the bridge's handling of what it sends, on any connection, have this effect: the
  -- client sends one message and counts one more passed step and no failed one; the bridge emits one
  -- update, that the node accepted the task of that very command, with the client's reason; the
  -- command is forgotten, and the node's queue is what it was without the tasks that were past their
  -- deadline or that gave way to the new one.
  pub send_task-answered :
      (js : Json fl) (display : ℤ → String) (clock clock' : Clock) (conn : ℕ)
      (local destination : Option String) (made : Made) (stamp : Timestamp)
      (sender task_id command_id : String) (t : Task) (s : Session fl) (inner : BridgeInner fl)
      → let msg = commands stamp sender destination task_id t in
        extract_task_id msg ≡ ok task_id
        → Others task_id (all_tasks inner.task_queue.queues)
        → let sent = (send_task clock made.node_id msg (some command_id) inner).0 in
          let s' = answer_task made (ok tt) (some (ok (some msg))) s in
          let inner' =
            (on_message js display clock' conn local (reply made sender task_id t) sent).1 in
          let fresh = retain (is_fresh clock.drained) (queue_of made.node_id inner.task_queue) in
          (s' ≡ record s {
            sent = s.sent ++ reply made sender task_id t ∷ [];
            steps_passed = s.steps_passed + 1;
          })
          × (inner'.updates
              ≡ inner.updates
                ++ task_acknowledged made.node_id task_id
                    (some command_id)
                    TaskAckStatus.accepted
                    ("Accepted by peat-sapient compliance client" ∷ [])
                  ∷ [])
          × (Dict.get task_id inner'.task_commands ≡ none)
          × (queue_of made.node_id inner'.task_queue
              ≡ drop (surplus inner.task_queue.max_depth fresh) fresh)
  unfolding answer_task answer_content send_step message pass task_status_from_proto
  send_task-answered js display clock clock' conn local destination made stamp sender task_id
        command_id t s inner h fresh =
      let sent =
        (send_task clock made.node_id (commands stamp sender destination task_id t)
          (some command_id) inner).0 in
      let (emitted, forgotten, left) =
        send_task-acknowledged js display clock clock' conn local made.node_id task_id command_id
          (commands stamp sender destination task_id t) acceptance inner h fresh in
      rw (on_message-reply js display clock' conn local made sender task_id t sent)
        (refl, emitted, forgotten, left)
