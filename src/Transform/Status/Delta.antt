-- ===== src/Transform/Status/Delta.antt =====
-- What peat-sapient/src/transform/status.rs makes of a status report.
use peat_sapient.Base.{
  ℕ, ◌≤◌, String, ◌||◌, ◌≡◌, refl, Option, none, some, arith, unwrap_or, is_some, inl, inr,
  Bool-cases, true, false,
}
use peat_sapient.Base.Int.{ℤ, pos, negsuc, clamp_from_zero}
use peat_sapient.Float.{Float}
use peat_sapient.Proto.{StatusReport}
use peat_sapient.Schema.{OperationalStatus, HealthStatus, NodeState, CapabilityAdvertisement}
use peat_sapient.Transform.Status.{
  System, system_of, health_of, system_to_health, operational_of, system_to_operational_status,
  battery_percent, delta_of, from_status_report,
}

clamp-le : (hi : ℕ) (v : ℤ) → clamp_from_zero hi v ≤ hi
unfolding clamp_from_zero
clamp-le hi (pos n) = ground arith
clamp-le hi (negsuc n) = omega arith

-- The operational status that goes with a health.
abbrev pub status_for : HealthStatus → OperationalStatus
status_for HealthStatus.nominal = OperationalStatus.ready
status_for HealthStatus.degraded = OperationalStatus.degraded
status_for HealthStatus.critical = OperationalStatus.offline
status_for HealthStatus.failed = OperationalStatus.offline
status_for HealthStatus.unspecified = OperationalStatus.unspecified

status-agree : (s : System) → operational_of s ≡ status_for (health_of s)
unfolding operational_of health_of
status-agree System.ok = refl
status-agree System.warning = refl
status-agree System.error = refl
status-agree System.goodbye = refl
status-agree System.unspecified = refl

module _ (fl : Float) where
  -- The two halves of a report agree: an advertisement is there exactly when the report has a field
  -- of view or a mode, it states the operational status that goes with the health of the state, and
  -- its power level is the percentage of the state divided by 100.
  abbrev pub Agree : StatusReport fl → NodeState fl → Option (CapabilityAdvertisement fl) → Type 0
  Agree msg state none = (is_some msg.field_of_view || is_some msg.mode) ≡ false
  Agree msg state (some adv) =
      ((is_some msg.field_of_view || is_some msg.mode) ≡ true)
      × (adv.operational_status ≡ status_for state.health)
      × (elim adv.resources [ none ↦ none | some r ↦ some r.power_level ]
          ≡ some (fl.div32 (fl.decimal32 state.fuel_minutes 0) (fl.decimal32 100 0)))

  -- For every report the remaining power of the state is at most 100, and an advertisement is made
  -- exactly when the report has a field of view or a mode, with the operational status that goes
  -- with the health of the state and the power level of the state divided by 100.
  pub from_status_report-Agree :
      (node_id : String) (msg : StatusReport fl)
      → let (state, delta) = from_status_report fl node_id msg in
        (state.fuel_minutes ≤ 100) × Agree msg state delta
  unfolding from_status_report battery_percent delta_of system_to_operational_status
      system_to_health
  from_status_report-Agree node_id msg =
      let agree = status-agree (system_of (unwrap_or (pos 0) msg.system)) in
      (
        clamp-le 100 _,
        elim (Bool-cases (is_some msg.field_of_view || is_some msg.mode)) [
          | inl e ↦ rw (e, from_status_report) (e, agree, refl)
          | inr e ↦ rw (e, from_status_report) e
        ],
      )
