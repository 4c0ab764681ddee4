-- ===== src/Bridge/Update.antt =====
-- The statuses and the updates of peat-sapient/src/bridge.rs.
use peat_sapient.Base.{String, Option, none, some, List, if◌then◌else◌}
use peat_sapient.Base.Int.{ℤ, pos, is_num}
use peat_sapient.Float.{Float}
use peat_sapient.Schema.{CapabilityAdvertisement, NodeState, Track}
use peat_sapient.Transform.Alert.{SapientAlertEvent}

pub data TaskAckStatus : Type 0 where
  accepted rejected completed failed : TaskAckStatus

-- The numbers of `TaskStatus` in task_ack.proto: 0 is unspecified, and above 4 there are none.
unfoldable pub task_status_from_proto : Option ℤ → TaskAckStatus
task_status_from_proto none = TaskAckStatus.failed
task_status_from_proto (some raw) =
    if is_num raw 1
    then TaskAckStatus.accepted
    else if is_num raw 2
    then TaskAckStatus.rejected
    else if is_num raw 3
    then TaskAckStatus.completed
    else TaskAckStatus.failed

pub data AlertAckStatus : Type 0 where
  accepted rejected cancelled : AlertAckStatus

unfoldable pub alert_status_from_proto : Option ℤ → AlertAckStatus
alert_status_from_proto none = AlertAckStatus.rejected
alert_status_from_proto (some raw) =
    if is_num raw 1
    then AlertAckStatus.accepted
    else if is_num raw 3
    then AlertAckStatus.cancelled
    else AlertAckStatus.rejected

unfoldable pub alert_status_to_proto : AlertAckStatus → ℤ
alert_status_to_proto AlertAckStatus.accepted = pos 1
alert_status_to_proto AlertAckStatus.rejected = pos 2
alert_status_to_proto AlertAckStatus.cancelled = pos 3

pub data SapientUpdate (fl : Float) : Type 0 where
  registered : String → CapabilityAdvertisement fl → SapientUpdate fl
  status_updated : String → NodeState fl → Option (CapabilityAdvertisement fl) → SapientUpdate fl
  detected : String → Track fl → SapientUpdate fl
  alerted : String → SapientAlertEvent fl → SapientUpdate fl
  alert_acknowledged : String → String → AlertAckStatus → List String → SapientUpdate fl
  task_acknowledged :
      String → String → Option String → TaskAckStatus → List String → SapientUpdate fl
  ignored : String → SapientUpdate fl
  node_disconnected : String → SapientUpdate fl
