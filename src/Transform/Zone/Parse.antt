-- ===== src/Transform/Zone/Parse.antt =====
-- The zones that `parse_utm_zone` of peat-sapient/src/transform/detection.rs accepts.
use peat_sapient.Base.{ℕ, ◌≤◌, Bool, ◌≡◌, Option, none, some, List, arith}
use peat_sapient.Transform.Zone.{
  trim, split_last, parse_u8, to_ascii_uppercase, is_northern_band, check_zone, parse_utm_zone,
}

check_zone-bounds :
    (letter : ℕ) (num : Option ℕ) (n : ℕ) (north : Bool)
    → check_zone letter num ≡ some (n, north)
    → (num ≡ some n) × (1 ≤ n) × (n ≤ 60) × (north ≡ is_northern_band (to_ascii_uppercase letter))
unfolding check_zone
check_zone-bounds letter none n north h = cc
check_zone-bounds letter (some m) n north h = ground arith

-- A zone is accepted only if all but the last character of the trimmed text is its number, from 1
-- to 60; it is northern exactly when the last character, in upper case, is a northern band, so any
-- other last character, a digit included, makes it southern.
pub parse_utm_zone-bounds :
    (zone digits : List ℕ) (letter n : ℕ) (north : Bool)
    → split_last (trim zone) ≡ some (letter, digits)
    → parse_utm_zone zone ≡ some (n, north)
    → (parse_u8 digits ≡ some n)
      × (1 ≤ n)
      × (n ≤ 60)
      × (north ≡ is_northern_band (to_ascii_uppercase letter))
unfolding parse_utm_zone
parse_utm_zone-bounds zone digits letter n north e h =
    check_zone-bounds letter (parse_u8 digits) n north (rw (e, parse_utm_zone) at h)
