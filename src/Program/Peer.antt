-- ===== src/Program/Peer.antt =====
-- `parse_peer` of peat-sapient-bridge/src/main.rs. The hexadecimal decoder and the parser of socket
-- addresses are parameters; `debug` is `{:?}` and `decimal` the number's text.
pub mod Printed
use Prim.Native.Char.{code}
use peat_sapient.Base.{
  ℕ, String, concat, Option, none, some, List, [], ◌∷◌, ◌==◌, if◌then◌else◌, length,
}
use peat_sapient.Connection.{Outcome, done, failed}

pub record Parsers : Type 0 where
  pub hex_decode : String → Outcome (List ℕ)
  pub socket_addr : String → Outcome (Unit {0})
  pub debug : String → String
  pub decimal : ℕ → String

-- `anyhow`'s `context`: the text that an error displays is replaced.
unfoldable pub context {ℓ} : {A : Type ℓ} → String → Outcome A → Outcome A
context what (done a) = done a
context what (failed e) = failed what

infixl 5 ◌>>=◌
abbrev pub ◌>>=◌ {ℓ κ} : {A : Type ℓ} {B : Type κ} → Outcome A → (A → Outcome B) → Outcome B
done a >>= f = f a
failed e >>= f = failed e

-- `str::split_once` at a character.
unfoldable pub split_once : ℕ → String → Option (String × String)
split_once at String.[] = none
split_once at (String.◌∷◌ c s) =
    let later : Option (String × String) = elim (split_once at s) [
      | none ↦ none
      | some (before, after) ↦ some (String.◌∷◌ c before, after)
    ] in
    if code c == at then some (String.[], s) else later

module _ (lib : Parsers) where
  open lib use {hex_decode, socket_addr, debug, decimal}

  unfoldable pub check_length : String → List ℕ → Outcome (Unit {0})
  check_length id_hex raw =
      if length raw == 32
      then done tt
      else failed
          (concat "node id has " (concat (decimal (length raw)) " bytes, need 32 (64 hex chars)"))

  unfoldable pub parse_parts : String → String → Outcome (String × List String)
  unfolding context check_length
  parse_parts id_hex addr_str =
      context (concat "node id " (concat (debug id_hex) " is not valid hex")) (hex_decode id_hex)
      >>= λ raw. check_length id_hex raw >>= λ _.
          context (concat (debug addr_str) " is not a valid IP:PORT") (socket_addr addr_str)
          >>= λ _. done (id_hex, addr_str ∷ [])

  unfoldable pub parse_peer : String → Outcome (String × List String)
  unfolding split_once parse_parts
  parse_peer spec = elim (split_once b'@' spec) [
    | none ↦ failed "--peer needs NODE_ID_HEX@ADDR (64 hex chars @ ip:port)"
    | some (id_hex, addr_str) ↦ parse_parts id_hex addr_str
  ]
