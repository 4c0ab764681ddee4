-- ===== src/Bridge/Serve.antt =====
-- `start` and `run_connection` of peat-sapient/src/bridge.rs as loops over what the sockets return:
-- the listener's connections, the messages or errors that a connection reads, and the answers to its
-- writes. Bridge/Connection has one round of the reading loop.
pub mod Rounds
use peat_sapient.Base.{ℕ, suc, String, concat, Option, none, some, List, [], ◌∷◌}
use peat_sapient.Base.Int.{ℤ}
use peat_sapient.Float.{Float}
use peat_sapient.Json.{Json}
use peat_sapient.Error.{Result, ok, err, connection_failed}
use peat_sapient.Proto.{SapientMessage}
use peat_sapient.Connection.{Outcome, done, failed}
use peat_sapient.Bridge.State.{BridgeInner, Clock}
use peat_sapient.Bridge.Connection.{on_message, on_close}

-- The address that the listener has, from the answers to `bind` and to `local_addr`.
unfoldable pub start : String → Outcome (Unit {0}) → Outcome String → Result String
start addr (done _) (done bound_addr) = ok bound_addr
start addr (done _) (failed e) = err (connection_failed (concat "local_addr: " e))
start addr (failed e) local_addr =
    err (connection_failed (concat "bind " (concat addr (concat ": " e))))

-- The connections that the accept loop hands to tasks, numbered in their order; an error of `accept`
-- is logged.
unfoldable pub accept_loop : ℕ → List (Outcome (Unit {0})) → List ℕ
accept_loop next [] = []
accept_loop next (done _ ∷ rest) = next ∷ accept_loop (suc next) rest
accept_loop next (failed e ∷ rest) = accept_loop next rest

module _ {fl : Float} where
  -- The messages that reach the socket, from those of the channel with the answers to their writes.
  unfoldable pub write_loop :
      List (SapientMessage fl × Result (Unit {0})) → List (SapientMessage fl)
  write_loop [] = []
  write_loop ((msg, ok _) ∷ rest) = msg ∷ write_loop rest
  write_loop ((msg, err e) ∷ rest) = []

module _ {fl : Float} (js : Json fl) (display : ℤ → String) where
  -- The `while let` over `framed_read.next()`.
  unfoldable pub read_loop :
      ℕ
      → List (Clock × Result (SapientMessage fl))
      → Option String
      → BridgeInner fl
      → Option String × BridgeInner fl
  unfolding on_message
  read_loop conn [] local inner = (local, inner)
  read_loop conn ((clock, err e) ∷ rest) local inner = (local, inner)
  read_loop conn ((clock, ok msg) ∷ rest) local inner =
      let (local', inner') = on_message js display clock conn local msg inner in
      read_loop conn rest local' inner'

  unfoldable pub run_connection :
      ℕ → List (Clock × Result (SapientMessage fl)) → BridgeInner fl → BridgeInner fl
  unfolding read_loop on_close
  run_connection conn reads inner =
      let (local, inner') = read_loop conn reads none inner in on_close local inner'
