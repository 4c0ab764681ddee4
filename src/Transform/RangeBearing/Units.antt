-- ===== src/Transform/RangeBearing/Units.antt =====
-- The units of a range and bearing in peat-sapient/src/transform/detection.rs.
use peat_sapient.Base.{ℕ, Bool, ◌&&◌, ◌||◌, ◌≡◌, none, some, arith, unwrap_or, is_some}
use peat_sapient.Base.Int.{pos, is_num}
use peat_sapient.Float.{Float}
use peat_sapient.Proto.{RangeBearing}
use peat_sapient.Transform.Location.{ok_or, feet_to_metres}
use peat_sapient.Transform.Location.Errors.{is_ok}
use peat_sapient.Transform.RangeBearing.{normalize_rb, normalize, by_system, try_from, km_to_metres}

module _ (fl : Float) where
  open fl use {F64, decimal, mul}

  abbrev pub in_system : ℕ → RangeBearing fl → RangeBearing fl
  in_system system rb = record rb { coordinate_system = some (pos system) }

  -- The same bearing with its range and range error multiplied by a unit.
  abbrev pub scaled : F64 → RangeBearing fl → RangeBearing fl
  scaled unit rb = record rb {
    range = elim rb.range [ none ↦ none | some r ↦ some (mul r unit) ];
    range_error = some (mul (unwrap_or (decimal 0 0) rb.range_error) unit);
  }

  -- Ranges in kilometres (systems 3 and 4) and in the feet of SAPIENT v7 (5 and 6) give the very
  -- result, error or not, of the range converted to metres in the system 1, with angles in degrees,
  -- or 2, with angles in radians.
  pub normalize_rb-units :
      (rb : RangeBearing fl)
      → (normalize_rb fl (in_system 3 rb)
          ≡ normalize_rb fl (in_system 1 (scaled (km_to_metres fl) rb)))
        × (normalize_rb fl (in_system 4 rb)
            ≡ normalize_rb fl (in_system 2 (scaled (km_to_metres fl) rb)))
        × (normalize_rb fl (in_system 5 rb)
            ≡ normalize_rb fl (in_system 1 (scaled (feet_to_metres fl) rb)))
        × (normalize_rb fl (in_system 6 rb)
            ≡ normalize_rb fl (in_system 2 (scaled (feet_to_metres fl) rb)))
  unfolding normalize_rb normalize by_system try_from ok_or
  normalize_rb-units rb = (ground arith, ground arith, ground arith, ground arith)

  -- Range and azimuth are there, in one of the systems 1 to 6.
  abbrev pub is_normal : RangeBearing fl → Bool
  is_normal rb =
      let cs = unwrap_or (pos 0) rb.coordinate_system in
      is_some rb.range
      && is_some rb.azimuth
      && (is_num cs 1 || is_num cs 2 || is_num cs 3 || is_num cs 4 || is_num cs 5 || is_num cs 6)

  -- A range and bearing is accepted exactly when it is complete and its system is known.
  pub normalize_rb-is_ok : (rb : RangeBearing fl) → is_ok (normalize_rb fl rb) ≡ is_normal rb
  unfolding normalize_rb normalize by_system try_from ok_or
  normalize_rb-is_ok rb = ground arith
