-- ===== src/Transform/Location.antt =====
-- `location_to_track_position` and its helpers of peat-sapient/src/transform/detection.rs.
pub mod Feet
pub mod Errors
use peat_sapient.Base.{ℕ, String, Bool, ◌||◌, Option, none, some, concat, unwrap_or, if◌then◌else◌}
use peat_sapient.Base.Int.{ℤ, pos, is_num}
use peat_sapient.Float.{Float}
use peat_sapient.Error.{Result, ok, err, ◌>>=◌, mapping_error, unsupported_coordinate_system}
use peat_sapient.Proto.{Location}
use peat_sapient.Schema.{TrackPosition, PositionError}
use peat_sapient.Transform.Zone.{codes, parse_utm_zone}
use peat_sapient.Transform.Utm.{wgs84_a, utm_to_latlon}

-- `LocationCoordinateSystem` of location.proto, with `try_from(..).unwrap_or(Unspecified)`.
pub data CoordinateSystem : Type 0 where
  unspecified lat_lng_deg_m lat_lng_rad_m utm_m : CoordinateSystem

unfoldable pub try_from : ℤ → Option CoordinateSystem
try_from raw =
    if is_num raw 0
    then some unspecified
    else if is_num raw 1
    then some lat_lng_deg_m
    else if is_num raw 2
    then some lat_lng_rad_m
    else if is_num raw 5
    then some utm_m
    else none

unfoldable pub ok_or {ℓ} : {A : Type ℓ} → Option A → String → String → Result A
ok_or none kind detail = err (mapping_error kind detail)
ok_or (some a) kind detail = ok a

module _ (fl : Float) where
  open fl use {F64, F32, decimal, decimal32, add, mul, cos, to_radians, to_degrees, as_f32}

  unfoldable pub feet_to_metres : F64
  feet_to_metres = decimal 3048 4

  unfoldable pub cep_from_errors_m : F64 → F64 → F32
  cep_from_errors_m sigma_x_m sigma_y_m = as_f32 (mul (decimal 5887 4) (add sigma_x_m sigma_y_m))

  unfoldable pub location_errors_to_m : F64 → F64 → F64 → ℤ → F64 × F64
  location_errors_to_m x_err y_err lat_deg raw_cs =
      let lat_rad = to_radians lat_deg in
      if is_num raw_cs 1 || is_num raw_cs 3
      then (
        mul (mul (to_radians x_err) (wgs84_a fl)) (cos lat_rad),
        mul (to_radians y_err) (wgs84_a fl),
      )
      else if is_num raw_cs 2 || is_num raw_cs 4
      then (mul (mul x_err (wgs84_a fl)) (cos lat_rad), mul y_err (wgs84_a fl))
      else if is_num raw_cs 5
      then (x_err, y_err)
      else (decimal 0 0, decimal 0 0)

  -- The two structs that every branch builds: latitude, longitude, altitude, CEP, vertical error.
  unfoldable pub located : F64 → F64 → F32 → F32 → F32 → TrackPosition fl × PositionError fl
  located lat lon alt cep vert = (
    record {
      latitude = lat;
      longitude = lon;
      altitude = alt;
      cep_m = cep;
      vertical_error_m = vert;
    },
    record { circular_error = cep; linear_error = decimal32 0 0; vertical_error = vert },
  )

  unfoldable pub utm_location :
      Location fl
      → F64
      → F64
      → F64
      → F64
      → F64
      → F64
      → ℤ
      → Result (TrackPosition fl × PositionError fl)
  utm_location loc x y z x_err y_err z_err raw_cs = do
    zone_str ← ok_or loc.utm_zone "location" "UTM location missing utm_zone"
    zone ← ok_or (parse_utm_zone (codes zone_str)) "location" (concat "invalid utm_zone: " zone_str)
    let latlon = utm_to_latlon fl x y zone.0 zone.1
    let sigma = location_errors_to_m x_err y_err latlon.0 raw_cs
    ok (located latlon.0 latlon.1 (as_f32 z) (cep_from_errors_m sigma.0 sigma.1) (as_f32 z_err))

  -- The `match cs`.
  unfoldable pub by_system :
      CoordinateSystem
      → Location fl
      → F64
      → F64
      → F64
      → F64
      → F64
      → F64
      → ℤ
      → Result (TrackPosition fl × PositionError fl)
  by_system lat_lng_deg_m loc x y z x_err y_err z_err raw_cs =
      let sigma = location_errors_to_m x_err y_err y raw_cs in
      ok (located y x (as_f32 z) (cep_from_errors_m sigma.0 sigma.1) (as_f32 z_err))
  by_system lat_lng_rad_m loc x y z x_err y_err z_err raw_cs =
      let lat_deg = to_degrees y in
      let sigma = location_errors_to_m x_err y_err lat_deg raw_cs in
      ok (
        located lat_deg (to_degrees x) (as_f32 z) (cep_from_errors_m sigma.0 sigma.1)
          (as_f32 z_err))
  by_system utm_m loc x y z x_err y_err z_err raw_cs =
      utm_location loc x y z x_err y_err z_err raw_cs
  by_system unspecified loc x y z x_err y_err z_err raw_cs =
      err (unsupported_coordinate_system "unspecified coordinate system")

  unfoldable pub feet_location :
      F64 → F64 → F64 → F64 → F64 → F64 → ℤ → TrackPosition fl × PositionError fl
  feet_location lat lon z x_err y_err z_err raw_cs =
      let sigma = location_errors_to_m x_err y_err lat raw_cs in
      located lat lon (as_f32 (mul z feet_to_metres)) (cep_from_errors_m sigma.0 sigma.1)
        (as_f32 (mul z_err feet_to_metres))

  -- What follows once both coordinates are there.
  unfoldable pub locate : Location fl → F64 → F64 → Result (TrackPosition fl × PositionError fl)
  locate loc x y =
      let z = unwrap_or (decimal 0 0) loc.z in
      let x_err = unwrap_or (decimal 0 0) loc.x_error in
      let y_err = unwrap_or (decimal 0 0) loc.y_error in
      let z_err = unwrap_or (decimal 0 0) loc.z_error in
      let raw_cs = unwrap_or (pos 0) loc.coordinate_system in
      if is_num raw_cs 3
      then ok (feet_location y x z x_err y_err z_err raw_cs)
      else if is_num raw_cs 4
      then ok (feet_location (to_degrees y) (to_degrees x) z x_err y_err z_err raw_cs)
      else by_system (unwrap_or unspecified (try_from raw_cs)) loc x y z x_err y_err z_err raw_cs

  unfoldable pub location_to_track_position :
      Location fl → Result (TrackPosition fl × PositionError fl)
  location_to_track_position loc = do
    x ← ok_or loc.x "location" "Location.x missing"
    y ← ok_or loc.y "location" "Location.y missing"
    locate loc x y
