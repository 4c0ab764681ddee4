-- ===== src/Transform/Location/Feet.antt =====
-- The coordinate systems in feet of SAPIENT v7 in peat-sapient/src/transform/detection.rs.
use peat_sapient.Base.{ℕ, ◌≡◌, some, arith, unwrap_or}
use peat_sapient.Base.Int.{pos}
use peat_sapient.Float.{Float}
use peat_sapient.Proto.{Location}
use peat_sapient.Transform.Location.{
  location_to_track_position, locate, feet_location, by_system, try_from, feet_to_metres,
  location_errors_to_m, ok_or,
}

module _ (fl : Float) where
  open fl use {decimal, mul}

  -- The same place with its altitude and altitude error multiplied by `feet_to_metres`.
  abbrev pub in_metres : ℕ → Location fl → Location fl
  in_metres system loc = record loc {
    z = some (mul (unwrap_or (decimal 0 0) loc.z) (feet_to_metres fl));
    z_error = some (mul (unwrap_or (decimal 0 0) loc.z_error) (feet_to_metres fl));
    coordinate_system = some (pos system);
  }

  abbrev pub in_system : ℕ → Location fl → Location fl
  in_system system loc = record loc { coordinate_system = some (pos system) }

  -- The retired systems 3 and 4 give the very result, error or not, that the systems 1 and 2 in
  -- metres give for the altitude and its error converted from feet.
  pub feet-metres :
      (loc : Location fl)
      → (location_to_track_position fl (in_system 3 loc)
          ≡ location_to_track_position fl (in_metres 1 loc))
        × (location_to_track_position fl (in_system 4 loc)
            ≡ location_to_track_position fl (in_metres 2 loc))
  unfolding location_to_track_position locate feet_location by_system try_from ok_or
      location_errors_to_m
  feet-metres loc = (ground arith, ground arith)
