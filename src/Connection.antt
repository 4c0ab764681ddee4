-- ===== src/Connection.antt =====
-- peat-sapient/src/connection.rs. What a call of the network, the file system or the TLS library
-- returns is an argument; a `Duration` is a number of nanoseconds. `Framed` adds the codec to a
-- stream and nothing else, so a framed stream is the stream.
pub mod Backoff
pub mod Tls
use peat_sapient.Base.{
  ℕ, zero, suc, ◌*◌, ◌+◌, ◌^◌, String, Bool, true, false, Option, none, some, List, [], ◌∷◌, ltb,
  if◌then◌else◌,
}
use peat_sapient.Error.{Result, ok, err, connection_failed}

-- The result of a call outside the program, its error as the text that it displays.
pub data Outcome {ℓ} (A : Type ℓ) : Type ℓ where
  done : A → Outcome A
  failed : String → Outcome A

abbrev pub is_done {ℓ} : {A : Type ℓ} → Outcome A → Bool
is_done (done a) = true
is_done (failed e) = false

-- `Duration * 2` panics past the largest number of seconds.
abbrev pub duration_end : ℕ
duration_end = 2 ^ 64 * 1_000_000_000

pub record ReconnectConfig : Type 0 where
  pub initial_delay : ℕ
  pub max_delay : ℕ

unfoldable pub default_reconnect : ReconnectConfig
default_reconnect = record { initial_delay = 1_000_000_000; max_delay = 30 * 1_000_000_000 }

pub data BridgeRole : Type 0 where
  hldmm : String → BridgeRole
  dlmm : String → ReconnectConfig → BridgeRole

-- What a run of the retry loop comes to: it returned a connection after the listed sleeps, it
-- panicked, or it is still at it.
pub data Retry (A : Type 0) : Type 0 where
  connected : A → List ℕ → Retry A
  panicked : Retry A
  retrying : List ℕ → Retry A

module _ {A : Type 0} where
  unfoldable pub connect : Outcome A → Result A
  connect (done stream) = ok stream
  connect (failed e) = err (connection_failed e)

  unfoldable pub accept : Outcome (A × String) → Result (A × String)
  accept (done (stream, peer_addr)) = ok (stream, peer_addr)
  accept (failed e) = err (connection_failed e)

  -- What `framed.next()` returned, turned round.
  unfoldable pub recv : Option (Result A) → Result (Option A)
  recv (some (ok msg)) = ok (some msg)
  recv (some (err e)) = err e
  recv none = ok none

  unfoldable pub slept : ℕ → Retry A → Retry A
  slept delay (connected a sleeps) = connected a (delay ∷ sleeps)
  slept delay panicked = panicked
  slept delay (retrying sleeps) = retrying (delay ∷ sleeps)

-- `(delay * 2).min(config.max_delay)`; `none` is the panic of the multiplication.
unfoldable pub next_delay : ReconnectConfig → ℕ → Option ℕ
next_delay config delay =
    if ltb (delay * 2) duration_end
    then some (if ltb config.max_delay (delay * 2) then config.max_delay else delay * 2)
    else none

module _ {A : Type 0} (config : ReconnectConfig) (attempt : ℕ → Result A) where
  -- The `loop`, for `fuel` attempts from the `i`-th on.
  unfoldable pub retry_loop : ℕ → ℕ → ℕ → Retry A
  unfolding next_delay slept
  retry_loop zero i delay = retrying []
  retry_loop (suc fuel) i delay = elim (attempt i) [
    | ok framed ↦ connected framed []
    | err e ↦ elim (next_delay config delay) [
      | none ↦ panicked
      | some longer ↦ slept delay (retry_loop fuel (i + 1) longer)
    ]
  ]

module _ {A : Type 0} where
  -- `dial i` is what the `i`-th `TcpStream::connect` returns.
  unfoldable pub connect_with_retry : (ℕ → Outcome A) → ReconnectConfig → ℕ → Retry A
  unfolding retry_loop connect
  connect_with_retry dial config fuel =
      retry_loop config (λ i. connect (dial i)) fuel 0 config.initial_delay
