-- ===== src/Transform/Zone.antt =====
-- `parse_utm_zone` of peat-sapient/src/transform/detection.rs. A text is the list of its characters'
-- code points, since the source walks it; `trim`, `parse::<u8>` and `to_ascii_uppercase` are those of
-- Rust's standard library.
pub mod Parse
use Prim.Native.Char.{code}
use mathlib.Core.List.{reverse}
use peat_sapient.Base.{
  ℕ, ◌+◌, ◌-◌, ◌*◌, String, Bool, true, false, ◌&&◌, ◌||◌, Option, none, some, List, [], ◌∷◌, ltb,
  leb, ◌==◌, if◌then◌else◌,
}

abbrev pub codes : String → List ℕ
codes String.[] = []
codes (String.◌∷◌ c s) = code c ∷ codes s

-- `char::is_whitespace`: the characters of the Unicode property `White_Space`.
unfoldable pub is_whitespace : ℕ → Bool
is_whitespace c =
    leb 9 c && leb c 13
    || c == 32
    || c == 133
    || c == 160
    || c == 5760
    || leb 8192 c && leb c 8202
    || c == 8232
    || c == 8233
    || c == 8239
    || c == 8287
    || c == 12288

unfoldable pub trim_start : List ℕ → List ℕ
unfolding is_whitespace
trim_start [] = []
trim_start (c ∷ s) = if is_whitespace c then trim_start s else c ∷ s

unfoldable pub trim : List ℕ → List ℕ
unfolding trim_start
trim s = reverse (trim_start (reverse (trim_start s)))

-- The last character and the text before it.
unfoldable pub split_last : List ℕ → Option (ℕ × List ℕ)
split_last [] = none
split_last (c ∷ s) = elim (split_last s) [
  | none ↦ some (c, [])
  | some (letter, before) ↦ some (letter, c ∷ before)
]

-- The digits of a `u8`; a value above 255 is an error.
unfoldable pub parse_digits : ℕ → List ℕ → Option ℕ
parse_digits acc [] = some acc
parse_digits acc (c ∷ s) =
    let value = acc * 10 + (c - b'0') in
    let rest = parse_digits value s in
    if leb b'0' c && leb c b'9' && leb value 255 then rest else none

-- `str::parse::<u8>`: an optional plus sign, then at least one digit.
unfoldable pub parse_u8 : List ℕ → Option ℕ
unfolding parse_digits
parse_u8 [] = none
parse_u8 (c ∷ []) = parse_digits 0 (c ∷ [])
parse_u8 (c ∷ d ∷ s) = if c == b'+' then parse_digits 0 (d ∷ s) else parse_digits 0 (c ∷ d ∷ s)

unfoldable pub to_ascii_uppercase : ℕ → ℕ
to_ascii_uppercase c = if leb b'a' c && leb c b'z' then c - 32 else c

-- The letters of the northern latitude bands.
unfoldable pub is_northern_band : ℕ → Bool
is_northern_band c = c == b'N' || leb b'P' c && leb c b'X'

unfoldable pub check_zone : ℕ → Option ℕ → Option (ℕ × Bool)
unfolding to_ascii_uppercase is_northern_band
check_zone letter none = none
check_zone letter (some zone_num) =
    if leb 1 zone_num && leb zone_num 60
    then some (zone_num, is_northern_band (to_ascii_uppercase letter))
    else none

unfoldable pub parse_utm_zone : List ℕ → Option (ℕ × Bool)
unfolding trim split_last parse_u8 check_zone
parse_utm_zone zone = elim (split_last (trim zone)) [
  | none ↦ none
  | some (letter, num_part) ↦ check_zone letter (parse_u8 num_part)
]
