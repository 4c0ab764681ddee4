-- ===== src/Schema.antt =====
-- The types of the crate `peat-schema` that the source builds and reads, with the fields that it
-- names. A field that holds an enum of that crate as an `i32` is the enum itself: the numbers are
-- peat-schema's own, and casting there and back is the identity.
use peat_sapient.Base.{ℕ, String, Option, List}
use peat_sapient.Base.Int.{ℤ}
use peat_sapient.Float.{Float}

pub record TrackPosition (fl : Float) : Type 0 where
  pub latitude : fl.F64
  pub longitude : fl.F64
  pub altitude : fl.F32
  pub cep_m : fl.F32
  pub vertical_error_m : fl.F32

pub record PositionError (fl : Float) : Type 0 where
  pub circular_error : fl.F32
  pub linear_error : fl.F32
  pub vertical_error : fl.F32

pub record Velocity (fl : Float) : Type 0 where
  pub bearing : fl.F32
  pub speed_mps : fl.F32
  pub vertical_speed_mps : fl.F32

pub record Position (fl : Float) : Type 0 where
  pub latitude : fl.F64
  pub longitude : fl.F64
  pub altitude : fl.F64

pub data TrackState : Type 0 where
  confirmed : TrackState

pub data SourceType : Type 0 where
  sensor : SourceType

pub record TrackSource : Type 0 where
  pub node_id : String
  pub sensor_id : String
  pub model_version : String
  pub source_type : SourceType

-- peat-schema's own timestamp: `u64` seconds and `u32` nanoseconds.
pub record Timestamp : Type 0 where
  pub seconds : ℕ
  pub nanos : ℕ

pub record Track (fl : Float) : Type 0 where
  pub track_id : String
  pub classification : String
  pub confidence : fl.F32
  pub position : Option (TrackPosition fl)
  pub velocity : Option (Velocity fl)
  pub position_error : Option (PositionError fl)
  pub state : TrackState
  pub source : Option TrackSource
  pub attributes_json : String
  pub last_seen : Option Timestamp
  pub observation_count : ℕ

pub data OperationalStatus : Type 0 where
  unspecified ready active degraded offline maintenance : OperationalStatus

pub data HealthStatus : Type 0 where
  unspecified nominal degraded critical failed : HealthStatus

pub data Phase : Type 0 where
  unspecified discovery cell hierarchy : Phase

pub data CapabilityType : Type 0 where
  unspecified sensor compute communication mobility payload : CapabilityType

pub record Capability (fl : Float) : Type 0 where
  pub id : String
  pub name : String
  pub capability_type : CapabilityType
  pub confidence : fl.F32
  pub metadata_json : String

pub record ResourceStatus (fl : Float) : Type 0 where
  pub compute_utilization : fl.F32
  pub memory_utilization : fl.F32
  pub power_level : fl.F32
  pub storage_utilization : fl.F32
  pub bandwidth_utilization : fl.F32
  pub extra_json : String

pub record CapabilityAdvertisement (fl : Float) : Type 0 where
  pub node_id : String
  pub capabilities : List (Capability fl)
  pub resources : Option (ResourceStatus fl)
  pub operational_status : OperationalStatus

pub record NodeState (fl : Float) : Type 0 where
  pub position : Option (Position fl)
  pub fuel_minutes : ℕ
  pub health : HealthStatus
  pub phase : Phase

pub data CommandType : Type 0 where
  mission_order : ℤ → CommandType
  engagement_order : String → CommandType
  formation_change : CommandType
  configuration_update : CommandType

pub record HierarchicalCommand : Type 0 where
  pub command_id : String
  pub command_type : Option CommandType
  pub expires_at : Option Timestamp
