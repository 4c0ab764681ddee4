-- ===== src/Examples/Bridging.antt =====
-- The bridge.
use peat_sapient.Base.{
  ◌≡◌, refl, String, true, none, some, List, [], ◌∷◌, ◌++◌, map, drop, retain, str_eq,
  if◌then◌else◌,
}
use peat_sapient.Base.Int.{pos}
use peat_sapient.Base.Dict
use peat_sapient.Error.{Result, ok, err, connection_failed}
use peat_sapient.Proto.{
  SapientMessage, registration, detection_report, status_report, range_bearing,
}
use peat_sapient.Schema.{HierarchicalCommand, engagement_order}
use peat_sapient.Transform.Task.{to_task}
use peat_sapient.Bridge.Outbound.Commands.{Promised, to_task-Promised}
use peat_sapient.TaskQueue.{queue_of, pending_for}
use peat_sapient.TaskQueue.Queues.{surplus}
use peat_sapient.TaskQueue.Expiry.{is_fresh}
use peat_sapient.Registry.{get_position}
use peat_sapient.Transform.Location.Errors.{is_ok}
use peat_sapient.Bridge.Update.{
  AlertAckStatus, task_acknowledged, task_status_from_proto, alert_acknowledged,
}
use peat_sapient.Bridge.Route.{route_message}
use peat_sapient.Bridge.Route.Outcome.{routed, route_message-routed}
use peat_sapient.Bridge.State
use peat_sapient.Bridge.State.{Clock, BridgeInner}
use peat_sapient.Bridge.Outbound.{send_task, extract_task_id, make_alert_ack}
use peat_sapient.Bridge.Outbound.Tasks.{mem, posted, send_task-queues}
use peat_sapient.Bridge.Outbound.Alerts.{route-make_alert_ack}
use peat_sapient.Bridge.Connection.{greet, on_message, on_close, make_registration_ack}
use peat_sapient.Bridge.Connection.Replay.{live_tasks, greet-replays}
use peat_sapient.Bridge.Connection.Acks.{acknowledges, send_task-acknowledged}
use peat_sapient.Bridge.Connection.World.Stranded.{on_close-strands}
use peat_sapient.Bridge.Connection.World
use peat_sapient.Bridge.Connection.World.{World, Event, message, closes, sends, start, run}
use peat_sapient.Bridge.Connection.World.Commands.{ids}
use peat_sapient.Bridge.Connection.World.Correlation.{command-queued}
use peat_sapient.Bridge.Connection.World.Live.{connection-registered}
use peat_sapient.Bridge.Connection.World.Positions.{get_position-never}
use peat_sapient.Bridge.Serve.{run_connection}
use peat_sapient.Bridge.Serve.Rounds.{rounds, run_connection-rounds}
use peat_sapient.Examples.Setup.{
  numbers, texts, display, noon, clock_at, wrap, task_message, completed, a_bearing, detection_at,
  a_status, a_registration, a_config,
}

abbrev hello : SapientMessage numbers
hello = wrap (some "radar") (some (registration a_registration))

-- A sensor registers, reports its status and gets a task.
abbrev events : List (Event numbers)
events =
    message (clock_at 1) 7 hello
    ∷ message (clock_at 2) 7 (wrap (some "radar") (some (status_report a_status)))
    ∷ sends (clock_at 3) "radar" (task_message "t1") (some "c1")
    ∷ []

abbrev bridge : BridgeInner numbers
bridge = (run texts display (start a_config) events).inner

-- No task was sent yet.
abbrev idle : BridgeInner numbers
idle = State.new a_config

id_of_task : extract_task_id (task_message "t2") ≡ ok "t2"
unfolding extract_task_id
id_of_task = refl

send_task-queues_example :
    let (inner', result) = send_task (clock_at 5) "radar" (task_message "t2") (some "c2") bridge in
    let live = λ (j : String). retain (is_fresh 5) (queue_of j bridge.task_queue) in
    (result ≡ ok tt)
    × ((j : String)
        → pending_for j inner'.task_queue ≡ (
            if str_eq "radar" j
            then map (λ t. t.msg) (drop (surplus bridge.task_queue.max_depth (live j)) (live j))
              ++ task_message "t2" ∷ []
            else map (λ t. t.msg) (live j)))
    × (inner'.sent
        ≡ bridge.sent ++ posted (Dict.get "radar" bridge.connections) (task_message "t2"))
    × (inner'.updates ≡ bridge.updates)
    × (inner'.connections ≡ bridge.connections)
send_task-queues_example =
    send_task-queues (clock_at 5) "radar" "t2" (task_message "t2") (some "c2") bridge id_of_task

greet-replays_example :
    let (local, inner') = greet (clock_at 9) 8 true none "radar" bridge in
    (local ≡ some "radar")
    × ((j : String)
        → Dict.get j inner'.connections
          ≡ (if str_eq "radar" j then some 8 else Dict.get j bridge.connections))
    × (inner'.sent
        ≡ bridge.sent
          ++ (8, make_registration_ack noon bridge.config.node_id "radar")
            ∷ map (λ m. (8, m)) (live_tasks 9 "radar" bridge))
    × (pending_for "radar" inner'.task_queue ≡ live_tasks 9 "radar" bridge)
    × (inner'.updates ≡ bridge.updates)
    × (inner'.registry ≡ bridge.registry)
greet-replays_example = greet-replays (clock_at 9) 8 "radar" bridge

send_task-acknowledged_example :
    let sent = (send_task (clock_at 5) "radar" (task_message "t2") (some "c2") idle).0 in
    let inner' =
      (on_message texts display
        (clock_at 6)
        7
        (some "radar")
        (acknowledges "radar" "t2" completed)
        sent).1 in
    let fresh = retain (is_fresh 5) (queue_of "radar" idle.task_queue) in
    (inner'.updates
      ≡ idle.updates
        ++ task_acknowledged "radar" "t2"
            (some "c2")
            (task_status_from_proto (some (pos 3)))
            ("done" ∷ [])
          ∷ [])
    × (Dict.get "t2" inner'.task_commands ≡ none)
    × (queue_of "radar" inner'.task_queue ≡ drop (surplus idle.task_queue.max_depth fresh) fresh)
unfolding State.new peat_sapient.TaskQueue.new
send_task-acknowledged_example =
    send_task-acknowledged texts display (clock_at 5) (clock_at 6) 7 (some "radar") "radar" "t2"
      "c2" (task_message "t2") completed idle id_of_task tt

connection-registered_example : (run texts display (start a_config) events).locals 7 ≡ some "radar"
unfolding run start State.new World.step on_message Dict.get route_message
    peat_sapient.Bridge.Connection.is_registration State.write_all pending_for
    peat_sapient.TaskQueue.drain_expired peat_sapient.TaskQueue.new Dict.insert
connection-registered_example = connection-registered texts display a_config events "radar" 7 refl

get_position-never_example : get_position "radar" bridge.registry ≡ none
get_position-never_example = get_position-never texts display a_config events "radar"

-- The sensor registers again on a second connection.
abbrev twice : World numbers
twice =
    run texts display (start a_config)
      (message (clock_at 1) 7 hello ∷ message (clock_at 2) 8 hello ∷ [])

at_connections : (twice.locals 7 ≡ some "radar") × (twice.locals 8 ≡ some "radar")
unfolding run start State.new World.step on_message Dict.get route_message
    peat_sapient.Bridge.Connection.is_registration State.write_all pending_for
    peat_sapient.TaskQueue.drain_expired peat_sapient.TaskQueue.new Dict.insert
at_connections = (refl, refl)

-- It registers once more on that connection after the first has ended.
abbrev again : List (Event numbers)
again = message (clock_at 4) 8 hello ∷ []

on_close-strands_example :
    let u = run texts display twice (closes 7 ∷ again) in
    (u.locals 8 ≡ some "radar")
    × (Dict.get "radar" u.inner.connections ≡ none)
    × ((send_task (clock_at 5) "radar" (task_message "t2") none u.inner).0.sent ≡ u.inner.sent)
on_close-strands_example =
    on_close-strands texts display twice "radar" 7 8 again (clock_at 5) (task_message "t2") none
      (at_connections.0) (at_connections.1) refl (refl, tt)

abbrev sighting : SapientMessage numbers
sighting = wrap (some "radar") (some (detection_report (detection_at (range_bearing a_bearing))))

route_message-routed_example :
    let (limiter', result) = route_message texts display 1 1 sighting none none in
    (limiter', is_ok result) ≡ routed texts display 1 1 "radar" sighting.content none none
route_message-routed_example = route_message-routed texts display 1 1 sighting none none

route-make_alert_ack_example :
    route_message texts display 1 1
      (make_alert_ack {fl = numbers} noon "radar" "bridge" "a1" AlertAckStatus.cancelled
        ("stale" ∷ []))
      none
      none
    ≡ (none, ok (alert_acknowledged "radar" "a1" AlertAckStatus.cancelled ("stale" ∷ [])))
route-make_alert_ack_example =
    route-make_alert_ack texts display 1 1 noon "radar" "bridge" "a1" AlertAckStatus.cancelled
      ("stale" ∷ []) none none

abbrev command : HierarchicalCommand
command = record {
  command_id = "c9";
  command_type = some (engagement_order "target-1");
  expires_at = none;
}

to_task-Promised_example :
    Promised {fl = numbers} "t9" "bridge" "radar"
      (some (engagement_order "target-1"))
      (to_task display "t9" noon noon "bridge" "radar" command)
to_task-Promised_example =
    to_task-Promised numbers display "t9" noon noon "bridge" "radar" command (λ e. cc)

command-queued_example :
    (node_id : String) × (mem "t1" (ids (queue_of node_id bridge.task_queue)) ≡ true)
unfolding run start State.new Dict.get World.step route_message
    peat_sapient.Bridge.Connection.is_registration State.write_all pending_for
    peat_sapient.TaskQueue.drain_expired peat_sapient.TaskQueue.new Dict.insert State.discard
    peat_sapient.TaskQueue.enqueue
command-queued_example = command-queued texts display a_config events "t1" "c1" refl

-- A registration, a status report and then an error.
abbrev reads : List (Clock × Result (SapientMessage numbers))
reads =
    (clock_at 1, ok hello)
    ∷ (clock_at 2, ok (wrap (some "radar") (some (status_report a_status))))
    ∷ (clock_at 3, err (connection_failed "reset"))
    ∷ (clock_at 4, ok hello)
    ∷ []

run_connection-rounds_example :
    run_connection texts display 7 reads (start a_config).inner
    ≡ (run texts display (start a_config) (rounds 7 reads)).inner
unfolding start
run_connection-rounds_example = run_connection-rounds texts display 7 reads (start a_config) refl
