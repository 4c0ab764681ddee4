-- ===== src/Float.antt =====
-- The floating-point numbers of the source, `f64` and `f32`, and the operations of Rust's standard
-- library on them. They are a parameter of every definition that computes with them: the IEEE
-- numbers are not built here, and a theorem that needs a law of theirs states it as a hypothesis.
use peat_sapient.Base.{ℕ, Bool}

pub record Float : Type 1 where
  pub F64 : Type 0
  pub F32 : Type 0
  -- `decimal m e` is the literal m / 10 ^ e, and `decimal n 0` also the cast `n as f64`.
  pub decimal : ℕ → ℕ → F64
  pub decimal32 : ℕ → ℕ → F32
  pub add : F64 → F64 → F64
  pub sub : F64 → F64 → F64
  pub mul : F64 → F64 → F64
  pub div : F64 → F64 → F64
  pub min : F64 → F64 → F64
  pub le : F64 → F64 → Bool
  pub lt : F64 → F64 → Bool
  pub eq : F64 → F64 → Bool
  pub sqrt : F64 → F64
  pub sin : F64 → F64
  pub cos : F64 → F64
  pub tan : F64 → F64
  pub atan2 : F64 → F64 → F64
  pub powi : F64 → ℕ → F64
  pub powf : F64 → F64 → F64
  pub to_radians : F64 → F64
  pub to_degrees : F64 → F64
  -- `Duration::as_secs_f64` of a number of nanoseconds.
  pub as_secs_f64 : ℕ → F64
  -- `x as f32` and `x as f64`.
  pub as_f32 : F64 → F32
  pub as_f64 : F32 → F64
  pub add32 : F32 → F32 → F32
  pub div32 : F32 → F32 → F32
  pub lt32 : F32 → F32 → Bool
  pub eq32 : F32 → F32 → Bool
