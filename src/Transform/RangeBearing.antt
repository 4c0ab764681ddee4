-- ===== src/Transform/RangeBearing.antt =====
-- `normalize_rb` and `range_bearing_to_track_position` of
-- peat-sapient/src/transform/detection.rs.
pub mod Units
use peat_sapient.Base.{ℕ, ◌*◌, Bool, ◌||◌, Option, none, some, unwrap_or, if◌then◌else◌}
use peat_sapient.Base.Int.{ℤ, pos, is_num}
use peat_sapient.Float.{Float}
use peat_sapient.Error.{Result, ok, err, ◌>>=◌, unsupported_coordinate_system}
use peat_sapient.Proto.{RangeBearing}
use peat_sapient.Schema.{TrackPosition, PositionError}
use peat_sapient.Transform.Location.{ok_or, feet_to_metres}

-- `RangeBearingCoordinateSystem` of range_bearing.proto.
pub data CoordinateSystem : Type 0 where
  unspecified degrees_m radians_m degrees_km radians_km : CoordinateSystem

unfoldable pub try_from : ℤ → Option CoordinateSystem
try_from raw =
    if is_num raw 0
    then some unspecified
    else if is_num raw 1
    then some degrees_m
    else if is_num raw 2
    then some radians_m
    else if is_num raw 3
    then some degrees_km
    else if is_num raw 4
    then some radians_km
    else none

-- Range, azimuth and elevation, and the range error: metres and degrees.
pub record Normalized (fl : Float) : Type 0 where
  pub range : fl.F64
  pub azimuth : fl.F64
  pub elevation : fl.F64
  pub range_error : fl.F64

module _ (fl : Float) where
  open fl use {
    F64, decimal, decimal32, add, mul, div, sin, cos, to_radians, to_degrees, as_f32, add32,
  }

  unfoldable pub km_to_metres : F64
  km_to_metres = decimal 1000 0

  unfoldable pub normalized : F64 → F64 → F64 → F64 → Normalized fl
  normalized range az el range_err = record {
    range = range;
    azimuth = az;
    elevation = el;
    range_error = range_err;
  }

  unfoldable pub by_system : CoordinateSystem → F64 → F64 → F64 → F64 → Result (Normalized fl)
  unfolding normalized
  by_system degrees_m range az el range_err = ok (normalized range az el range_err)
  by_system radians_m range az el range_err =
      ok (normalized range (to_degrees az) (to_degrees el) range_err)
  by_system degrees_km range az el range_err =
      ok (normalized (mul range km_to_metres) az el (mul range_err km_to_metres))
  by_system radians_km range az el range_err = ok (
      normalized (mul range km_to_metres) (to_degrees az) (to_degrees el)
        (mul range_err km_to_metres))
  by_system unspecified range az el range_err =
      err (unsupported_coordinate_system "unspecified range-bearing coordinate system")

  -- What follows once range and azimuth are there.
  unfoldable pub normalize : RangeBearing fl → F64 → F64 → Result (Normalized fl)
  unfolding normalized
  normalize rb range az =
      let el = unwrap_or (decimal 0 0) rb.elevation in
      let range_err = unwrap_or (decimal 0 0) rb.range_error in
      let raw_cs = unwrap_or (pos 0) rb.coordinate_system in
      let feet = feet_to_metres fl in
      if is_num raw_cs 5
      then ok (normalized (mul range feet) az el (mul range_err feet))
      else if is_num raw_cs 6
      then ok (normalized (mul range feet) (to_degrees az) (to_degrees el) (mul range_err feet))
      else by_system (unwrap_or unspecified (try_from raw_cs)) range az el range_err

  unfoldable pub normalize_rb : RangeBearing fl → Result (Normalized fl)
  normalize_rb rb = do
    range ← ok_or rb.range "range_bearing" "RangeBearing.range missing"
    az ← ok_or rb.azimuth "range_bearing" "RangeBearing.azimuth missing"
    normalize rb range az

  -- The flat-earth offset from the sensor.
  unfoldable pub offset_position :
      Normalized fl → TrackPosition fl → TrackPosition fl × PositionError fl
  offset_position n sensor =
      let az_rad = to_radians n.azimuth in
      let el_rad = to_radians n.elevation in
      let horiz = mul n.range (cos el_rad) in
      let north_m = mul horiz (cos az_rad) in
      let east_m = mul horiz (sin az_rad) in
      let up_m = mul n.range (sin el_rad) in
      let lat_deg_per_m = div (decimal 1 0) (decimal 111111 0) in
      let lon_deg_per_m =
        div (decimal 1 0) (mul (decimal 111111 0) (cos (to_radians sensor.latitude))) in
      let cep = as_f32 n.range_error in
      (
        record {
          latitude = add sensor.latitude (mul north_m lat_deg_per_m);
          longitude = add sensor.longitude (mul east_m lon_deg_per_m);
          altitude = add32 sensor.altitude (as_f32 up_m);
          cep_m = cep;
          vertical_error_m = decimal32 0 0;
        },
        record {
          circular_error = cep;
          linear_error = decimal32 0 0;
          vertical_error = decimal32 0 0;
        },
      )

  unfoldable pub range_bearing_to_track_position :
      RangeBearing fl → TrackPosition fl → Result (TrackPosition fl × PositionError fl)
  range_bearing_to_track_position rb sensor = do n ← normalize_rb rb; ok (offset_position n sensor)
