-- ===== src/Transform/Location/Errors.antt =====
-- Which locations peat-sapient/src/transform/detection.rs resolves, and the errors it states.
use peat_sapient.Base.{
  ℕ, Bool, true, false, ◌&&◌, ◌||◌, ◌≡◌, refl, none, some, arith, unwrap_or, is_some, inl, inr,
  Option-cases,
}
use peat_sapient.Base.Int.{ℤ, pos, is_num}
use peat_sapient.Float.{Float}
use peat_sapient.Error.{Result, ok, err}
use peat_sapient.Proto.{Location}
use peat_sapient.Schema.{TrackPosition, PositionError}
use peat_sapient.Transform.Zone.{codes, parse_utm_zone}
use peat_sapient.Transform.Location.{
  location_to_track_position, locate, feet_location, by_system, try_from, located, ok_or,
  utm_location,
}

abbrev pub is_ok {ℓ} : {A : Type ℓ} → Result A → Bool
is_ok (ok a) = true
is_ok (err e) = false

module _ (fl : Float) where
  -- The text of the zone names a zone.
  abbrev pub has_zone : Location fl → Bool
  has_zone loc = elim loc.utm_zone [ none ↦ false | some s ↦ is_some (parse_utm_zone (codes s)) ]

  -- Both coordinates are there, in one of the systems 1 to 4, or in system 5 with a valid zone.
  abbrev pub is_resolvable : Location fl → Bool
  is_resolvable loc =
      let cs = unwrap_or (pos 0) loc.coordinate_system in
      is_some loc.x
      && is_some loc.y
      && (is_num cs 1 || is_num cs 2 || is_num cs 3 || is_num cs 4 || is_num cs 5 && has_zone loc)

  -- The error that goes with a position states the position's own circular and vertical error.
  abbrev pub IsConsistent : Result (TrackPosition fl × PositionError fl) → Type 0
  IsConsistent (ok (p, e)) =
      (e.circular_error ≡ p.cep_m)
      × (e.vertical_error ≡ p.vertical_error_m)
      × (e.linear_error ≡ fl.decimal32 0 0)
  IsConsistent (err e) = Unit {0}

  utm_location-is_ok :
      (loc : Location fl) (x y z x_err y_err z_err : fl.F64) (cs : ℤ)
      → (is_ok (utm_location fl loc x y z x_err y_err z_err cs) ≡ has_zone loc)
        × IsConsistent (utm_location fl loc x y z x_err y_err z_err cs)
  unfolding utm_location located ok_or
  utm_location-is_ok loc x y z x_err y_err z_err cs = ground arith

  locate-is_ok :
      (loc : Location fl) (x y : fl.F64)
      → let cs = unwrap_or (pos 0) loc.coordinate_system in
        (is_ok (locate fl loc x y) ≡ (
          is_num cs 1 || is_num cs 2 || is_num cs 3 || is_num cs 4 || is_num cs 5 && has_zone loc))
        × IsConsistent (locate fl loc x y)
  unfolding locate feet_location by_system try_from located
  locate-is_ok loc x y =
      let num = λ (n : ℕ). fl.decimal n 0 in
      ground (
        arith,
        utm_location-is_ok loc x y (unwrap_or (num 0) loc.z) (unwrap_or (num 0) loc.x_error)
            (unwrap_or (num 0) loc.y_error) (unwrap_or (num 0) loc.z_error)
            (unwrap_or (pos 0) loc.coordinate_system),
      )

  -- A location is resolved exactly when it is resolvable, and then the error stated beside the
  -- position agrees with the position's own.
  pub location-resolved :
      (loc : Location fl)
      → (is_ok (location_to_track_position fl loc) ≡ is_resolvable loc)
        × IsConsistent (location_to_track_position fl loc)
  unfolding location_to_track_position ok_or
  location-resolved loc = elim (Option-cases loc.x) [
    | inl e ↦ rw (e, location_to_track_position) (refl, tt)
    | inr (x, e) ↦ elim (Option-cases loc.y) [
      | inl e' ↦ rw (e, e', location_to_track_position) (refl, tt)
      | inr (y, e') ↦
          rw (e, e', location_to_track_position)
            (locate-is_ok (record loc { x = some x; y = some y }) x y)
    ]
  ]
