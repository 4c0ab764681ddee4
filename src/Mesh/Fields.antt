-- ===== src/Mesh/Fields.antt =====
-- peat-sapient/src/mesh_fields.rs. A map of JSON values is a `Dict`.
pub mod Presence
use Prim.Native.Nat.{min}
use peat_sapient.Base.{
  ℕ, ◌+◌, ◌-◌, ◌*◌, ◌/◌, ◌%◌, ◌^◌, String, Bool, true, false, not, Option, none, some, List, [],
  map, str_eq, is_empty, if◌then◌else◌,
}
use peat_sapient.Base.Int.{as_i64}
use peat_sapient.Base.Dict
use peat_sapient.Base.Dict.{Dict}
use peat_sapient.Float.{Float}
use peat_sapient.Json.{Json}
use peat_sapient.Schema.{
  Track, TrackPosition, Timestamp, TrackSource, Position, NodeState, CapabilityAdvertisement,
  OperationalStatus, HealthStatus, Phase,
}

unfoldable pub operational_status_str : OperationalStatus → String
operational_status_str OperationalStatus.unspecified = "unspecified"
operational_status_str OperationalStatus.ready = "ready"
operational_status_str OperationalStatus.active = "active"
operational_status_str OperationalStatus.degraded = "degraded"
operational_status_str OperationalStatus.offline = "offline"
operational_status_str OperationalStatus.maintenance = "maintenance"

unfoldable pub health_status_str : HealthStatus → String
health_status_str HealthStatus.unspecified = "unspecified"
health_status_str HealthStatus.nominal = "nominal"
health_status_str HealthStatus.degraded = "degraded"
health_status_str HealthStatus.critical = "critical"
health_status_str HealthStatus.failed = "failed"

unfoldable pub phase_str : Phase → String
phase_str Phase.unspecified = "unspecified"
phase_str Phase.discovery = "discovery"
phase_str Phase.cell = "cell"
phase_str Phase.hierarchy = "hierarchy"

-- `operational_status != OperationalStatus::Unspecified`.
unfoldable pub is_specified : OperationalStatus → Bool
is_specified OperationalStatus.unspecified = false
is_specified OperationalStatus.ready = true
is_specified OperationalStatus.active = true
is_specified OperationalStatus.degraded = true
is_specified OperationalStatus.offline = true
is_specified OperationalStatus.maintenance = true

-- Milliseconds: the product of the seconds saturates at the end of `u64`, and the sum wraps.
unfoldable pub millis : Timestamp → ℕ
millis t = (min (t.seconds * 1000) (2 ^ 64 - 1) + t.nanos / 1000000) % 2 ^ 64

module _ {fl : Float} (js : Json fl) where
  open js use {Value, string, array, f64, f32, i64}

  unfoldable pub position_fields : Option (TrackPosition fl) → Dict Value → Dict Value
  position_fields none fields = fields
  position_fields (some pos) fields =
      let placed =
        Dict.insert "lon" (f64 pos.longitude) (Dict.insert "lat" (f64 pos.latitude) fields) in
      if not (fl.eq32 pos.altitude (fl.decimal32 0 0))
      then Dict.insert "hae" (f32 pos.altitude) placed
      else placed

  unfoldable pub time_fields : Option Timestamp → Dict Value → Dict Value
  unfolding millis
  time_fields none fields = fields
  time_fields (some t) fields = Dict.insert "timestamp_ms" (i64 (as_i64 (millis t))) fields

  unfoldable pub class_fields : String → Dict Value → Dict Value
  class_fields classification fields =
      if not (str_eq classification "")
      then Dict.insert "sapient_classification" (string classification) fields
      else fields

  unfoldable pub source_fields : Option TrackSource → Dict Value → Dict Value
  source_fields none fields = fields
  source_fields (some source) fields =
      if not (str_eq source.node_id "")
      then Dict.insert "sapient_source_node_id" (string source.node_id) fields
      else fields

  unfoldable pub track_to_fields : Track fl → String × Dict Value
  unfolding position_fields time_fields class_fields source_fields
  track_to_fields track =
      let timed = time_fields track.last_seen (position_fields track.position []) in
      let classed = class_fields track.classification timed in
      let rated = Dict.insert "sapient_confidence" (f32 track.confidence) classed in
      (track.track_id, source_fields track.source rated)

  unfoldable pub place_fields : Option (Position fl) → Dict Value → Dict Value
  place_fields none fields = fields
  place_fields (some pos) fields =
      let placed =
        Dict.insert "lon" (f64 pos.longitude) (Dict.insert "lat" (f64 pos.latitude) fields) in
      if not (fl.eq pos.altitude (fl.decimal 0 0))
      then Dict.insert "hae" (f64 pos.altitude) placed
      else placed

  unfoldable pub state_fields : Option (NodeState fl) → Dict Value → Dict Value
  unfolding place_fields health_status_str phase_str
  state_fields none fields = fields
  state_fields (some state) fields = place_fields state.position (
      Dict.insert "phase" (string (phase_str state.phase))
        (Dict.insert "health" (string (health_status_str state.health)) fields))

  unfoldable pub capability_fields : CapabilityAdvertisement fl → Dict Value
  unfolding is_specified operational_status_str
  capability_fields adv =
      let names = map (λ c. c.name) adv.capabilities in
      let fields : Dict Value =
        if not (is_empty names)
        then Dict.insert "capabilities" (array (map string names)) []
        else [] in
      if is_specified adv.operational_status
      then Dict.insert "operational_status" (string (operational_status_str adv.operational_status))
          fields
      else fields

  unfoldable pub platform_to_fields :
      CapabilityAdvertisement fl → Option (NodeState fl) → String × Dict Value
  unfolding capability_fields state_fields
  platform_to_fields adv state = (adv.node_id, state_fields state (capability_fields adv))
