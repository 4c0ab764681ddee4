-- ===== src/Error.antt =====
-- peat-sapient/src/error.rs. The errors of the libraries (`std::io`, `prost`) are carried as the
-- text that they display.
use peat_sapient.Base.{ℕ, String}

pub data SapientError : Type 0 where
  io : String → SapientError
  decode : String → SapientError
  encode : String → SapientError
  connection_failed : String → SapientError
  node_not_found : String → SapientError
  mapping_error : String → String → SapientError
  unsupported_coordinate_system : String → SapientError
  task_rejected : String → String → SapientError
  frame_too_large : ℕ → ℕ → SapientError

-- Rust's `Result<A, SapientError>`.
pub data Result {ℓ} (A : Type ℓ) : Type ℓ where
  ok : A → Result A
  err : SapientError → Result A

infixl 5 ◌>>=◌
abbrev pub ◌>>=◌ {ℓ κ} : {A : Type ℓ} {B : Type κ} → Result A → (A → Result B) → Result B
ok a >>= f = f a
err e >>= f = err e
