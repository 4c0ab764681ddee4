-- ===== src/Examples/Complying.antt =====
-- The compliance client against the bridge.
use peat_sapient.Base.{◌≡◌, refl, none, some, [], ◌∷◌, ◌++◌, drop, retain}
use peat_sapient.Base.Int.{pos}
use peat_sapient.Base.Dict
use peat_sapient.Error.{ok}
use peat_sapient.Connection.{done}
use peat_sapient.Proto.{Task}
use peat_sapient.TaskQueue.{queue_of}
use peat_sapient.TaskQueue.Queues.{surplus}
use peat_sapient.TaskQueue.Expiry.{is_fresh}
use peat_sapient.Bridge.State
use peat_sapient.Bridge.State.{BridgeInner}
use peat_sapient.Bridge.Update.{TaskAckStatus, task_acknowledged}
use peat_sapient.Bridge.Outbound.{extract_task_id, send_task}
use peat_sapient.Bridge.Connection.{on_message, make_registration_ack}
use peat_sapient.Client.{Made}
use peat_sapient.Client.Exchange.{Answers, success, begin, main, answer_task}
use peat_sapient.Client.Success.{main-succeeds}
use peat_sapient.Client.Interop.{commands, reply, send_task-answered}
use peat_sapient.Examples.Setup.{numbers, texts, display, noon, clock_at, a_config}

abbrev made : Made
made = record {
  node_id = "client";
  report_ids = ("r1", "r2");
  object_id = "o1";
  stamps = (noon, noon, noon, noon);
}

abbrev look : Task
look = record {
  task_id = none;
  task_name = none;
  task_description = none;
  control = some (pos 1);
  task_start_time = none;
  task_end_time = none;
}

-- The bridge accepts the registration and sends a task.
abbrev answers : Answers numbers
answers = record {
  dialled = done tt;
  registration_sent = ok tt;
  first = ok (some (make_registration_ack noon "bridge" "client"));
  status_sent = ok tt;
  detection_sent = ok tt;
  second = some (ok (some (commands noon "bridge" (some "client") "t1" look)));
  ack_sent = ok tt;
}

main-succeeds_example : (main made answers).1 ≡ success
unfolding make_registration_ack peat_sapient.Client.message peat_sapient.Client.Exchange.is_accepted
main-succeeds_example = main-succeeds made answers

-- No task was sent yet.
abbrev idle : BridgeInner numbers
idle = State.new a_config

id_of_command :
    extract_task_id {fl = numbers} (commands noon "bridge" (some "client") "t1" look) ≡ ok "t1"
unfolding extract_task_id peat_sapient.Client.message
id_of_command = refl

send_task-answered_example :
    let msg = commands noon "bridge" (some "client") "t1" look in
    let sent = (send_task (clock_at 5) "client" msg (some "c1") idle).0 in
    let inner' =
      (on_message texts display
        (clock_at 6)
        7
        (some "client")
        (reply made "bridge" "t1" look)
        sent).1 in
    let fresh = retain (is_fresh 5) (queue_of "client" idle.task_queue) in
    (answer_task made (ok tt) (some (ok (some msg))) begin
      ≡ record begin { sent = reply made "bridge" "t1" look ∷ []; steps_passed = 1 })
    × (inner'.updates
        ≡ idle.updates
          ++ task_acknowledged "client" "t1"
              (some "c1")
              TaskAckStatus.accepted
              ("Accepted by peat-sapient compliance client" ∷ [])
            ∷ [])
    × (Dict.get "t1" inner'.task_commands ≡ none)
    × (queue_of "client" inner'.task_queue ≡ drop (surplus idle.task_queue.max_depth fresh) fresh)
unfolding State.new peat_sapient.TaskQueue.new
send_task-answered_example =
    send_task-answered texts display (clock_at 5) (clock_at 6) 7 (some "client") (some "client")
      made noon "bridge" "t1" "c1" look begin idle id_of_command tt
