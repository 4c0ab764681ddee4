-- ===== src/Bridge/Outbound/Tasks.antt =====
-- `send_task` of peat-sapient/src/bridge.rs.
use mathlib.Core.List.{map-append, append-nil}
use peat_sapient.Base.{
  ℕ, String, ◌≡◌, refl, Option, none, some, List, [], ◌∷◌, ◌++◌, map, drop, str_eq, eq_iff, eq_refl,
  arith, if◌then◌else◌, true, false, Bool, inl, inr, Bool-cases, Option-cases, retain,
}
use peat_sapient.Base.Dict
use peat_sapient.Base.Dict.{Dict, get-insert, get-remove}
use peat_sapient.Float.{Float}
use peat_sapient.Error.{SapientError, ok, err}
use peat_sapient.Proto.{SapientMessage}
use peat_sapient.TaskQueue.{queue_of, pending_for, drain_expired}
use peat_sapient.TaskQueue.Queues.{queue_of-enqueue, surplus}
use peat_sapient.TaskQueue.Expiry.{is_fresh, drain-partition}
use peat_sapient.Bridge.State.{BridgeInner, Clock, write, discard}
use peat_sapient.Bridge.Outbound.{extract_task_id, record_command, queue_task, deliver, send_task}

abbrev pub mem : String → List String → Bool
mem k [] = false
mem k (id ∷ ids) = if str_eq id k then true else mem k ids

-- What is known of a task after the commands of others are discarded.
pub get-discard :
    (k : String) (ids : List String) (cmds : Dict String)
    → Dict.get k (discard ids cmds) ≡ (if mem k ids then none else Dict.get k cmds)
unfolding discard
get-discard k [] cmds = refl
get-discard k (id ∷ ids) cmds =
    ground (arith, get-discard k ids (Dict.remove id cmds), get-remove k id cmds)

module _ {fl : Float} where
  -- What the writer of the node's connection gets, where it has one.
  abbrev pub posted : Option ℕ → SapientMessage fl → List (ℕ × SapientMessage fl)
  posted none msg = []
  posted (some conn) msg = (conn, msg) ∷ []

  pub deliver-fields :
      (node_id : String) (msg : SapientMessage fl) (inner : BridgeInner fl)
      → deliver node_id msg inner
        ≡ record inner { sent = inner.sent ++ posted (Dict.get node_id inner.connections) msg }
  unfolding deliver write
  deliver-fields node_id msg inner = elim (Option-cases (Dict.get node_id inner.connections)) [
    | inl e ↦ rw (e, deliver, append-nil)
    | inr (conn, e) ↦ rw (e, deliver)
  ]

  queue_task-pending :
      (clock : Clock) (node_id task_id j : String) (msg : SapientMessage fl)
      (inner : BridgeInner fl)
      → let live = λ (k : String). retain (is_fresh clock.drained) (queue_of k inner.task_queue) in
        pending_for j (queue_task clock node_id task_id msg inner).task_queue ≡ (
          if str_eq node_id j
          then map (λ t. t.msg) (drop (surplus inner.task_queue.max_depth (live j)) (live j))
            ++ msg ∷ []
          else map (λ t. t.msg) (live j))
  unfolding queue_task pending_for drain_expired
  queue_task-pending clock node_id task_id j msg inner =
      let drained = (drain-partition clock.drained inner.task_queue).0 in
      elim (Bool-cases (str_eq node_id j)) [
        | inl e ↦ rw (queue_of-enqueue, (eq_iff node_id j).0 e, eq_refl j, map-append, drained j)
        | inr e ↦ rw (queue_of-enqueue, e, drained j)
      ]

  -- A message that carries no task with an identifier is rejected with the error that says so, and
  -- nothing changes.
  pub send_task-rejects :
      (clock : Clock) (node_id : String) (msg : SapientMessage fl) (command_id : Option String)
      (inner : BridgeInner fl) (e : SapientError)
      → extract_task_id msg ≡ err e
      → send_task clock node_id msg command_id inner ≡ (inner, err e)
  unfolding send_task
  send_task-rejects clock node_id msg command_id inner e h = rw (h, send_task)

  -- A task with an identifier is accepted. It is then the newest pending task of its node, behind
  -- the tasks whose deadline has not passed, of which the oldest has given way if the queue was
  -- full; the other nodes keep their tasks whose deadline has not passed, and no other. The message
  -- is handed to the connection of its node, if there is one, and to no other.
  pub send_task-queues :
      (clock : Clock) (node_id task_id : String) (msg : SapientMessage fl)
      (command_id : Option String) (inner : BridgeInner fl)
      → extract_task_id msg ≡ ok task_id
      → let (inner', result) = send_task clock node_id msg command_id inner in
        let live = λ (j : String). retain (is_fresh clock.drained) (queue_of j inner.task_queue) in
        (result ≡ ok tt)
        × ((j : String)
            → pending_for j inner'.task_queue ≡ (
                if str_eq node_id j
                then map (λ t. t.msg) (drop (surplus inner.task_queue.max_depth (live j)) (live j))
                  ++ msg ∷ []
                else map (λ t. t.msg) (live j)))
        × (inner'.sent ≡ inner.sent ++ posted (Dict.get node_id inner.connections) msg)
        × (inner'.updates ≡ inner.updates)
        × (inner'.connections ≡ inner.connections)
  unfolding send_task queue_task
  send_task-queues clock node_id task_id msg command_id inner h =
      rw (h, send_task, deliver-fields)
        (
          refl,
          λ j. queue_task-pending clock node_id task_id j msg (record inner {
            task_commands = record_command task_id command_id inner.task_commands;
          }),
          refl,
          refl,
          refl,
        )
