-- ===== src/Transform/Status.antt =====
-- peat-sapient/src/transform/status.rs.
pub mod Delta
use peat_sapient.Base.{
  ℕ, String, Bool, ◌||◌, Option, none, some, List, [], unwrap_or, is_some, if◌then◌else◌,
}
use peat_sapient.Base.Int.{ℤ, pos, is_num, clamp_from_zero}
use peat_sapient.Float.{Float}
use peat_sapient.Proto.{Location, StatusReport}
use peat_sapient.Schema.{
  Position, NodeState, CapabilityAdvertisement, ResourceStatus, OperationalStatus, HealthStatus,
  Phase,
}
use peat_sapient.Transform.Location.{
  CoordinateSystem, lat_lng_deg_m, lat_lng_rad_m, utm_m, try_from,
}

-- `System` of status_report.proto, with `try_from(..).unwrap_or(Unspecified)`.
pub data System : Type 0 where
  unspecified ok warning error goodbye : System

unfoldable pub system_of : ℤ → System
system_of raw =
    if is_num raw 1
    then System.ok
    else if is_num raw 2
    then System.warning
    else if is_num raw 3
    then System.error
    else if is_num raw 5
    then System.goodbye
    else System.unspecified

unfoldable pub health_of : System → HealthStatus
health_of System.ok = HealthStatus.nominal
health_of System.warning = HealthStatus.degraded
health_of System.error = HealthStatus.critical
health_of System.goodbye = HealthStatus.failed
health_of System.unspecified = HealthStatus.unspecified

unfoldable pub system_to_health : ℤ → HealthStatus
unfolding system_of health_of
system_to_health raw = health_of (system_of raw)

unfoldable pub operational_of : System → OperationalStatus
operational_of System.ok = OperationalStatus.ready
operational_of System.warning = OperationalStatus.degraded
operational_of System.error = OperationalStatus.offline
operational_of System.goodbye = OperationalStatus.offline
operational_of System.unspecified = OperationalStatus.unspecified

unfoldable pub system_to_operational_status : ℤ → OperationalStatus
unfolding system_of operational_of
system_to_operational_status raw = operational_of (system_of raw)

module _ (fl : Float) where
  open fl use {F64, decimal, decimal32, to_degrees, div32}

  unfoldable pub position_in :
      Option CoordinateSystem → Location fl → F64 → F64 → Option (Position fl)
  position_in (some lat_lng_deg_m) loc x y =
      some (record { latitude = y; longitude = x; altitude = unwrap_or (decimal 0 0) loc.z })
  position_in (some lat_lng_rad_m) loc x y = some (record {
    latitude = to_degrees y;
    longitude = to_degrees x;
    altitude = unwrap_or (decimal 0 0) loc.z;
  })
  position_in (some utm_m) loc x y = none
  position_in (some CoordinateSystem.unspecified) loc x y = none
  position_in none loc x y = none

  unfoldable pub location_to_position : Location fl → Option (Position fl)
  unfolding position_in
  location_to_position loc = elim loc.x [
    | none ↦ none
    | some x ↦ elim loc.y [
      | none ↦ none
      | some y ↦ position_in (try_from (unwrap_or (pos 0) loc.coordinate_system)) loc x y
    ]
  ]

  -- `power.and_then(|p| p.level).unwrap_or(0).clamp(0, 100) as u32`.
  unfoldable pub battery_percent : StatusReport fl → ℕ
  battery_percent msg =
      clamp_from_zero 100
        (elim msg.power_level [ none ↦ pos 0 | some level ↦ unwrap_or (pos 0) level ])

  unfoldable pub delta_of : String → StatusReport fl → CapabilityAdvertisement fl
  unfolding battery_percent
  delta_of node_id msg = record {
    node_id = node_id;
    capabilities = [];
    resources = some (record {
      compute_utilization = decimal32 0 0;
      memory_utilization = decimal32 0 0;
      power_level = div32 (decimal32 (battery_percent msg) 0) (decimal32 100 0);
      storage_utilization = decimal32 0 0;
      bandwidth_utilization = decimal32 0 0;
      extra_json = "";
    });
    operational_status = system_to_operational_status (unwrap_or (pos 0) msg.system);
  }

  unfoldable pub from_status_report :
      String → StatusReport fl → NodeState fl × Option (CapabilityAdvertisement fl)
  unfolding location_to_position delta_of system_to_health
  from_status_report node_id msg = (
    record {
      position = elim msg.node_location [ none ↦ none | some loc ↦ location_to_position loc ];
      fuel_minutes = battery_percent msg;
      health = system_to_health (unwrap_or (pos 0) msg.system);
      phase = Phase.hierarchy;
    },
    if is_some msg.field_of_view || is_some msg.mode then some (delta_of node_id msg) else none,
  )
