-- ===== src/Json.antt =====
-- The part of the crate `serde_json` that the source calls, as a parameter: how values are made, what
-- is read back, and how a map is printed. A `serde_json::Map` is a `Dict`.
use peat_sapient.Base.{String, Option, List}
use peat_sapient.Base.Dict.{Dict}
use peat_sapient.Base.Int.{ℤ}
use peat_sapient.Float.{Float}

pub record Json (fl : Float) : Type 1 where
  pub Value : Type 0
  pub string : String → Value
  pub array : List Value → Value
  pub f64 : fl.F64 → Value
  pub f32 : fl.F32 → Value
  pub i64 : ℤ → Value
  pub as_f64 : Value → Option fl.F64
  pub as_str : Value → Option String
  -- `serde_json::to_string(&map).unwrap_or_default()`.
  pub to_string : Dict Value → String
