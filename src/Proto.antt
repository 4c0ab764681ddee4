-- ===== src/Proto.antt =====
-- The messages of peat-sapient/proto, as `prost` generates them: an optional field is an `Option`, a
-- repeated one a list, a `oneof` a data type. An enum field holds an `i32` of any value. The records
-- have the fields that the crates read or write; the others are always absent here.
use peat_sapient.Base.{String, Bool, Option, List}
use peat_sapient.Base.Int.{ℤ}
use peat_sapient.Float.{Float}

pub record Timestamp : Type 0 where
  pub seconds : ℤ
  pub nanos : ℤ

pub record Location (fl : Float) : Type 0 where
  pub x : Option fl.F64
  pub y : Option fl.F64
  pub z : Option fl.F64
  pub x_error : Option fl.F64
  pub y_error : Option fl.F64
  pub z_error : Option fl.F64
  pub coordinate_system : Option ℤ
  pub datum : Option ℤ
  pub utm_zone : Option String

pub record RangeBearing (fl : Float) : Type 0 where
  pub elevation : Option fl.F64
  pub azimuth : Option fl.F64
  pub range : Option fl.F64
  pub range_error : Option fl.F64
  pub coordinate_system : Option ℤ

-- `location_oneof`, of a detection and of an alert.
pub data LocationOneof (fl : Float) : Type 0 where
  location : Location fl → LocationOneof fl
  range_bearing : RangeBearing fl → LocationOneof fl

pub record EnuVelocity (fl : Float) : Type 0 where
  pub east_rate : Option fl.F64
  pub north_rate : Option fl.F64
  pub up_rate : Option fl.F64

pub record Classification (fl : Float) : Type 0 where
  pub class_type : Option String
  pub confidence : Option fl.F32

pub record Behaviour : Type 0 where
  pub behaviour_type : Option String

pub record DetectionReport (fl : Float) : Type 0 where
  pub report_id : Option String
  pub object_id : Option String
  pub location_oneof : Option (LocationOneof fl)
  pub detection_confidence : Option fl.F32
  pub classification : List (Classification fl)
  pub behaviour : List Behaviour
  pub velocity_oneof : Option (EnuVelocity fl)
  pub colour : Option String
  pub id : Option String

pub record NodeDefinition : Type 0 where
  pub node_type : Option ℤ
  pub node_sub_type : List String

pub record Capability : Type 0 where
  pub category : Option String
  pub type : Option String
  pub value : Option String
  pub units : Option String

pub record Duration (fl : Float) : Type 0 where
  pub units : Option ℤ
  pub value : Option fl.F32

pub record StatusDefinition (fl : Float) : Type 0 where
  pub status_interval : Option (Duration fl)

pub data CoordinatesOneof : Type 0 where
  location_units range_bearing_units : ℤ → CoordinatesOneof

pub data DatumOneof : Type 0 where
  location_datum range_bearing_datum : ℤ → DatumOneof

pub record LocationType : Type 0 where
  pub coordinates_oneof : Option CoordinatesOneof
  pub datum_oneof : Option DatumOneof

pub record RegionDefinition : Type 0 where
  pub region_type : List ℤ
  pub region_area : List LocationType

pub record TaskDefinition : Type 0 where
  pub concurrent_tasks : Option ℤ
  pub region_definition : Option RegionDefinition

pub record ModeDefinition (fl : Float) : Type 0 where
  pub mode_name : Option String
  pub mode_type : Option ℤ
  pub mode_description : Option String
  pub settle_time : Option (Duration fl)
  pub task : Option TaskDefinition

pub record ConfigurationData : Type 0 where
  pub manufacturer : String
  pub model : String
  pub software_version : Option String

pub record Registration (fl : Float) : Type 0 where
  pub node_definition : List NodeDefinition
  pub icd_version : Option String
  pub name : Option String
  pub short_name : Option String
  pub capabilities : List Capability
  pub status_definition : Option (StatusDefinition fl)
  pub mode_definition : List (ModeDefinition fl)
  pub config_data : List ConfigurationData

pub record RegistrationAck : Type 0 where
  pub acceptance : Option Bool
  pub ack_response_reason : List String

-- Of `power` the level is read, of `field_of_view` whether it is there.
pub record StatusReport (fl : Float) : Type 0 where
  pub report_id : Option String
  pub system : Option ℤ
  pub info : Option ℤ
  pub mode : Option String
  pub power_level : Option (Option ℤ)
  pub node_location : Option (Location fl)
  pub field_of_view : Option (LocationOneof fl)

pub record Task : Type 0 where
  pub task_id : Option String
  pub task_name : Option String
  pub task_description : Option String
  pub control : Option ℤ
  pub task_start_time : Option Timestamp
  pub task_end_time : Option Timestamp

pub record TaskAck : Type 0 where
  pub task_id : Option String
  pub task_status : Option ℤ
  pub reason : List String

pub record AssociatedDetection : Type 0 where
  pub object_id : Option String

pub record Alert (fl : Float) : Type 0 where
  pub alert_id : Option String
  pub alert_type : Option ℤ
  pub status : Option ℤ
  pub description : Option String
  pub location_oneof : Option (LocationOneof fl)
  pub region_id : Option String
  pub priority : Option ℤ
  pub ranking : Option fl.F32
  pub confidence : Option fl.F32
  pub associated_detection : List AssociatedDetection
  pub additional_information : Option String

pub record AlertAck : Type 0 where
  pub alert_id : Option String
  pub reason : List String
  pub alert_ack_status : Option ℤ

pub data Content (fl : Float) : Type 0 where
  registration : Registration fl → Content fl
  registration_ack : RegistrationAck → Content fl
  status_report : StatusReport fl → Content fl
  detection_report : DetectionReport fl → Content fl
  task : Task → Content fl
  task_ack : TaskAck → Content fl
  alert : Alert fl → Content fl
  alert_ack : AlertAck → Content fl
  error : List String → Content fl

pub record SapientMessage (fl : Float) : Type 0 where
  pub timestamp : Option Timestamp
  pub node_id : Option String
  pub destination_id : Option String
  pub content : Option (Content fl)
