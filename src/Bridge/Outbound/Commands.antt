-- ===== src/Bridge/Outbound/Commands.antt =====
-- Commands that peat-sapient/src/transform/task.rs turns into tasks for peat-sapient/src/bridge.rs.
use peat_sapient.Base.{
  String, ◌≡◌, ◌≢◌, refl, Option, none, some, str_eq-ne, Option-cases, inl, inr,
}
use peat_sapient.Base.Int.{ℤ}
use peat_sapient.Float.{Float}
use peat_sapient.Error.{Result, ok, err, task_rejected}
use peat_sapient.Proto.{SapientMessage, Timestamp}
use peat_sapient.Schema.{HierarchicalCommand, CommandType}
use peat_sapient.Transform.Task.{task_of, to_task}
use peat_sapient.Bridge.Outbound.{extract_task_id, task_id_of}

-- What `to_task` promises of its result for a command: a task with the fresh identifier, which
-- `send_task` accepts, or a rejection in the name of the source.
abbrev pub Promised :
    {fl : Float}
    → String
    → String
    → String
    → Option CommandType
    → Result (SapientMessage fl)
    → Type 0
Promised fresh source destination (some c) (ok msg) =
    (extract_task_id msg ≡ ok fresh)
    × (msg.node_id ≡ some source)
    × (msg.destination_id ≡ some destination)
Promised fresh source destination (some c) (err e) = ⊥
Promised fresh source destination none (ok msg) = ⊥
Promised fresh source destination none (err e) =
    e ≡ task_rejected source "HierarchicalCommand has no command_type"

module _ (fl : Float) where
  -- A command with a type becomes a message from the source to the destination that `send_task`
  -- accepts under the fresh identifier, where that is not empty; a command without one is rejected.
  pub to_task-Promised :
      (mission_label : ℤ → String) (fresh : String) (now sent : Timestamp)
      (source destination : String) (cmd : HierarchicalCommand)
      → fresh ≢ ""
      → Promised {fl = fl} fresh source destination cmd.command_type
          (to_task mission_label fresh now sent source destination cmd)
  unfolding to_task task_of extract_task_id task_id_of
  to_task-Promised mission_label fresh now sent source destination cmd h =
      elim (Option-cases cmd.command_type) [
        | inl e ↦ rw (e, to_task) refl
        | inr (c, e) ↦ rw (e, to_task) (rw (str_eq-ne fresh "" h) refl, refl, refl)
      ]
