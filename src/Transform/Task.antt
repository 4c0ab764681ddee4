-- ===== src/Transform/Task.antt =====
-- peat-sapient/src/transform/task.rs. The two readings of the clock are the arguments `now` and
-- `sent`, the text of `Ulid::new()` is `fresh`, and `mission_label` is the `Debug` name of the
-- `MissionType` of peat-schema that a number stands for, `Unspecified` for an unknown one.
use peat_sapient.Base.{String, Option, none, some, concat}
use peat_sapient.Base.Int.{ℤ, pos, as_i64, as_i32}
use peat_sapient.Float.{Float}
use peat_sapient.Error.{Result, ok, err, task_rejected}
use peat_sapient.Proto.{SapientMessage, Task, Timestamp, task}
use peat_sapient.Schema.{
  HierarchicalCommand, CommandType, mission_order, engagement_order, formation_change,
  configuration_update,
}

module _ (mission_label : ℤ → String) where
  unfoldable pub command_to_task_name : Option CommandType → String
  command_to_task_name (some (mission_order mission_type)) =
      concat "MissionOrder/" (mission_label mission_type)
  command_to_task_name (some (engagement_order target_id)) = concat "EngagementOrder/" target_id
  command_to_task_name (some formation_change) = "FormationChange"
  command_to_task_name (some configuration_update) = "ConfigurationUpdate"
  command_to_task_name none = ""

  unfoldable pub task_of : String → Timestamp → HierarchicalCommand → Task
  unfolding command_to_task_name
  task_of fresh now cmd = record {
    task_id = some fresh;
    task_name = some (command_to_task_name cmd.command_type);
    task_description = some (concat "peat command_id=" cmd.command_id);
    control = some (pos 1);
    task_start_time = some now;
    task_end_time = elim cmd.expires_at [
      | none ↦ none
      | some t ↦ some (record { seconds = as_i64 t.seconds; nanos = as_i32 t.nanos })
    ];
  }

  unfoldable pub to_task :
      {fl : Float}
      → String
      → Timestamp
      → Timestamp
      → String
      → String
      → HierarchicalCommand
      → Result (SapientMessage fl)
  unfolding task_of
  to_task fresh now sent source_node_id destination_node_id cmd = elim cmd.command_type [
    | none ↦ err (task_rejected source_node_id "HierarchicalCommand has no command_type")
    | some c ↦ ok (record {
      timestamp = some sent;
      node_id = some source_node_id;
      destination_id = some destination_node_id;
      content = some (task (task_of fresh now cmd));
    })
  ]
