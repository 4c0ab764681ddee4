-- ===== src/Transform/Utm.antt =====
-- `utm_to_latlon` of peat-sapient/src/transform/detection.rs, the inverse Transverse Mercator
-- projection, in the operations of the floating-point numbers and in the order of the source.
use peat_sapient.Base.{ℕ, Bool, if◌then◌else◌}
use peat_sapient.Float.{Float}

module _ (fl : Float) where
  open fl use {
    F64, decimal, add, sub, mul, div, sqrt, sin, cos, tan, powi, powf, to_radians, to_degrees,
  }

  abbrev pub num : ℕ → F64
  num n = decimal n 0

  unfoldable pub wgs84_a : F64
  wgs84_a = num 6378137

  unfoldable pub wgs84_f : F64
  wgs84_f = div (num 1) (decimal 298257223563 9)

  unfoldable pub wgs84_e2 : F64
  wgs84_e2 = sub (mul (num 2) wgs84_f) (mul wgs84_f wgs84_f)

  unfoldable pub wgs84_e_prime2 : F64
  wgs84_e_prime2 = div wgs84_e2 (sub (num 1) wgs84_e2)

  unfoldable pub utm_k0 : F64
  utm_k0 = decimal 9996 4

  -- The footpoint latitude `phi1`.
  unfoldable pub footpoint : F64 → F64
  footpoint y =
      let m = div y utm_k0 in
      let mu = div m (
        mul wgs84_a (
          sub
            (sub (sub (num 1) (div wgs84_e2 (num 4)))
              (div (mul (num 3) (powi wgs84_e2 2)) (num 64)))
            (div (mul (num 5) (powi wgs84_e2 3)) (num 256)))) in
      let root = sqrt (sub (num 1) wgs84_e2) in
      let e1 = div (sub (num 1) root) (add (num 1) root) in
      add
        (add
          (add
            (add mu (
              mul (sub (div (mul (num 3) e1) (num 2)) (div (mul (num 27) (powi e1 3)) (num 32)))
                (sin (mul (num 2) mu))))
            (mul
              (sub (div (mul (num 21) (powi e1 2)) (num 16))
                (div (mul (num 55) (powi e1 4)) (num 32)))
              (sin (mul (num 4) mu))))
          (mul (div (mul (num 151) (powi e1 3)) (num 96)) (sin (mul (num 6) mu))))
        (mul (div (mul (num 1097) (powi e1 4)) (num 512)) (sin (mul (num 8) mu)))

  unfoldable pub utm_to_latlon : F64 → F64 → ℕ → Bool → F64 × F64
  unfolding footpoint
  utm_to_latlon easting northing zone_number northern =
      let x = sub easting (num 500000) in
      let y = if northern then northing else sub northing (num 10000000) in
      let lon0_rad =
        to_radians (add (sub (mul (sub (num zone_number) (num 1)) (num 6)) (num 180)) (num 3)) in
      let phi1 = footpoint y in
      let sin_phi1 = sin phi1 in
      let cos_phi1 = cos phi1 in
      let tan_phi1 = tan phi1 in
      let n1 = div wgs84_a (sqrt (sub (num 1) (mul wgs84_e2 (powi sin_phi1 2)))) in
      let t1 = powi tan_phi1 2 in
      let c1 = mul wgs84_e_prime2 (powi cos_phi1 2) in
      let r1 =
        div (mul wgs84_a (sub (num 1) wgs84_e2))
          (powf (sub (num 1) (mul wgs84_e2 (powi sin_phi1 2))) (decimal 15 1)) in
      let d = div x (mul n1 utm_k0) in
      let second = div (powi d 2) (num 2) in
      let fourth =
        div
          (mul
            (sub
              (sub (add (add (num 5) (mul (num 3) t1)) (mul (num 10) c1)) (mul (num 4) (powi c1 2)))
              (mul (num 9) wgs84_e_prime2))
            (powi d 4))
          (num 24) in
      let sixth =
        div
          (mul
            (sub
              (sub
                (add (add (add (num 61) (mul (num 90) t1)) (mul (num 298) c1))
                  (mul (num 45) (powi t1 2)))
                (mul (num 252) wgs84_e_prime2))
              (mul (num 3) (powi c1 2)))
            (powi d 6))
          (num 720) in
      let lat_rad = sub phi1 (mul (div (mul n1 tan_phi1) r1) (add (sub second fourth) sixth)) in
      let third = div (mul (add (add (num 1) (mul (num 2) t1)) c1) (powi d 3)) (num 6) in
      let fifth =
        div
          (mul
            (add
              (add
                (sub (add (sub (num 5) (mul (num 2) c1)) (mul (num 28) t1))
                  (mul (num 3) (powi c1 2)))
                (mul (num 8) wgs84_e_prime2))
              (mul (num 24) (powi t1 2)))
            (powi d 5))
          (num 120) in
      let lon_rad = add lon0_rad (div (add (sub d third) fifth) cos_phi1) in
      (to_degrees lat_rad, to_degrees lon_rad)
