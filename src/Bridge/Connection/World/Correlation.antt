-- ===== src/Bridge/Connection/World/Correlation.antt =====
-- The commands that are remembered for tasks, in peat-sapient/src/bridge.rs.
use peat_sapient.Base.{
  ℕ, String, Bool, true, false, ◌≡◌, refl, Option, none, some, List, [], ◌∷◌, ◌++◌, str_eq, arith,
  inl, inr, Option-cases, unwrap_or,
}
use peat_sapient.Base.Int.{ℤ}
use peat_sapient.Base.Dict
use peat_sapient.Base.Dict.{Dict, get-insert}
use peat_sapient.Float.{Float}
use peat_sapient.Json.{Json}
use peat_sapient.Error.{Result, ok, err}
use peat_sapient.Proto.{SapientMessage}
use peat_sapient.Registry.{get_position}
use peat_sapient.TaskQueue.{queue_of, drain_expired}
use peat_sapient.Bridge.Update.{
  AlertAckStatus, SapientUpdate, registered, status_updated, detected, alerted, alert_acknowledged,
  task_acknowledged, ignored, node_disconnected,
}
use peat_sapient.Bridge.Route.{route_message}
use peat_sapient.Bridge.State
use peat_sapient.Bridge.State.{BridgeConfig, BridgeInner, Clock, write, emit, discard}
use peat_sapient.Bridge.Outbound.{
  extract_task_id, record_command, send_task, send_alert_ack, queue_task,
}
use peat_sapient.Bridge.Outbound.Tasks.{mem, get-discard, deliver-fields}
use peat_sapient.Bridge.Connection.{
  accept, settle, greet, register, expire_tasks, handle, on_message, on_close, is_registration,
}
use peat_sapient.Bridge.Connection.Replay.{write_all-appends}
use peat_sapient.Bridge.Connection.World.{
  World, Event, message, closes, sends, acknowledges, sweeps, start, step, run,
}
use peat_sapient.Bridge.Connection.World.Commands.{
  ids, AllPending, drain-AllPending, ack-AllPending, enqueue-AllPending,
}

discard-append :
    (xs ys : List String) (cmds : Dict String)
    → discard (xs ++ ys) cmds ≡ discard ys (discard xs cmds)
unfolding discard
discard-append [] ys cmds = refl
discard-append (x ∷ xs) ys cmds = discard-append xs ys (Dict.remove x cmds)

-- Recording the command of a task changes nothing for the others.
get-recorded :
    (k c id : String) (command_id : Option String) (gone : List String) (cmds : Dict String)
    → str_eq id k ≡ false
    → Dict.get k (discard gone (record_command id command_id cmds)) ≡ some c
    → Dict.get k (discard gone cmds) ≡ some c
unfolding record_command
get-recorded k c id none gone cmds other e = e
get-recorded k c id (some command_id) gone cmds other e = ground (
  arith,
  get-discard k gone (Dict.insert id command_id cmds),
  get-discard k gone cmds,
  get-insert k id command_id cmds,
)

module _ {fl : Float} where
  abbrev IsTied : BridgeInner fl → Type 0
  IsTied inner = AllPending inner.task_commands inner.task_queue

  queue_task-IsTied :
      (clock : Clock) (node_id id : String) (msg : SapientMessage fl) (command_id : Option String)
      (inner : BridgeInner fl)
      → IsTied inner
      → IsTied (
          queue_task clock node_id id msg
            (record inner { task_commands = record_command id command_id inner.task_commands }))
  unfolding queue_task
  queue_task-IsTied clock node_id id msg command_id inner h =
      let (q, expired) = drain_expired clock.drained inner.task_queue in
      let cmds = record_command id command_id inner.task_commands in
      rw discard-append (
        enqueue-AllPending clock.enqueued node_id id msg (discard expired cmds) q λ k c e other.
          drain-AllPending clock.drained inner.task_commands inner.task_queue h k c
            (get-recorded k c id command_id expired inner.task_commands other e))

  send_task-IsTied :
      (clock : Clock) (node_id : String) (msg : SapientMessage fl) (command_id : Option String)
      (inner : BridgeInner fl)
      → IsTied inner
      → IsTied (send_task clock node_id msg command_id inner).0
  unfolding send_task Dict.get queue_of
  send_task-IsTied clock node_id msg command_id inner h = go (extract_task_id msg) refl
    where
      go :
          (r : Result String)
          → extract_task_id msg ≡ r
          → IsTied (send_task clock node_id msg command_id inner).0
      go (ok id) e =
          rw (send_task, e, deliver-fields)
            (queue_task-IsTied clock node_id id msg command_id inner h)
      go (err x) e = rw (send_task, e) h

  send_alert_ack-IsTied :
      (clock : Clock) (node_id id : String) (s : AlertAckStatus) (r : List String)
      (inner : BridgeInner fl)
      → IsTied inner
      → IsTied (send_alert_ack clock node_id id s r inner).0
  unfolding write send_alert_ack Dict.get queue_of
  send_alert_ack-IsTied clock node_id id s r inner h =
      elim (Option-cases (Dict.get node_id inner.connections)) [
        | inl e ↦ rw (send_alert_ack, e) h
        | inr (conn, e) ↦ rw (send_alert_ack, e) h
      ]

  greet-IsTied :
      (clock : Clock) (conn : ℕ) (b : Bool) (local : Option String) (node_id : String)
      (inner : BridgeInner fl)
      → IsTied inner
      → IsTied (greet clock conn b local node_id inner).1
  unfolding greet register expire_tasks write
  greet-IsTied clock conn true none node_id inner h =
      rw write_all-appends (drain-AllPending clock.drained inner.task_commands inner.task_queue h)
  greet-IsTied clock conn true (some i) node_id inner h = h
  greet-IsTied clock conn false local node_id inner h = h

  settle-IsTied :
      (clock : Clock) (routed : Result (SapientUpdate fl)) (inner : BridgeInner fl)
      → IsTied inner
      → IsTied (settle clock routed inner)
  unfolding settle accept emit
  settle-IsTied clock (err e) inner h = h
  settle-IsTied clock (ok (registered node_id adv)) inner h = h
  settle-IsTied clock (ok (status_updated node_id state delta)) inner h = h
  settle-IsTied clock (ok (detected node_id track)) inner h = h
  settle-IsTied clock (ok (task_acknowledged node_id id c s r)) inner h =
      ack-AllPending node_id id inner.task_commands inner.task_queue h
  settle-IsTied clock (ok (alerted node_id event)) inner h = h
  settle-IsTied clock (ok (alert_acknowledged node_id id s r)) inner h = h
  settle-IsTied clock (ok (ignored reason)) inner h = h
  settle-IsTied clock (ok (node_disconnected node_id)) inner h = h

  close-IsTied :
      (local : Option String) (inner : BridgeInner fl)
      → IsTied inner
      → IsTied (on_close local inner)
  unfolding on_close emit
  close-IsTied none inner h = h
  close-IsTied (some node_id) inner h = h

module _ {fl : Float} (js : Json fl) (display : ℤ → String) where
  handle-IsTied :
      (clock : Clock) (msg : SapientMessage fl) (inner : BridgeInner fl)
      → IsTied inner
      → IsTied (handle js display clock msg inner)
  unfolding handle
  handle-IsTied clock msg inner h =
      let (limiter, routed) =
        route_message js display clock.made clock.checked msg
          (get_position (unwrap_or "" msg.node_id) inner.registry) inner.detection_limiter in
      settle-IsTied clock routed (record inner { detection_limiter = limiter }) h

  step-IsTied : (w : World fl) (e : Event fl) → IsTied w.inner → IsTied (step js display w e).inner
  unfolding step on_message
  step-IsTied w (message clock conn msg) h =
      let local = w.locals conn in
      let node_id = unwrap_or "" msg.node_id in
      handle-IsTied clock msg
        (greet clock conn (is_registration msg.content) local node_id w.inner).1
        (greet-IsTied clock conn (is_registration msg.content) local node_id w.inner h)
  step-IsTied w (closes conn) h = close-IsTied (w.locals conn) w.inner h
  step-IsTied w (sends clock node_id msg c) h = send_task-IsTied clock node_id msg c w.inner h
  step-IsTied w (acknowledges clock node_id id s r) h =
      send_alert_ack-IsTied clock node_id id s r w.inner h
  step-IsTied w (sweeps room interval now) h = h

  run-IsTied :
      (w : World fl) (es : List (Event fl)) → IsTied w.inner → IsTied (run js display w es).inner
  unfolding run
  run-IsTied w [] h = h
  run-IsTied w (e ∷ es) h = run-IsTied (step js display w e) es (step-IsTied w e h)

  -- After any events, in any order, a command that is remembered for a task is the command of a task
  -- that is still queued for some node: none is left behind by a task that was acknowledged, that
  -- expired or that gave way to another.
  pub command-queued :
      (config : BridgeConfig fl) (es : List (Event fl)) (task_id command_id : String)
      → Dict.get task_id (run js display (start config) es).inner.task_commands ≡ some command_id
      → (node_id : String) × (mem task_id
            (ids (queue_of node_id (run js display (start config) es).inner.task_queue))
          ≡ true)
  unfolding start State.new Dict.get
  command-queued config es = run-IsTied (start config) es (λ k c e. cc)
