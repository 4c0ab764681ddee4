-- ===== src/Bridge/Serve/Rounds.antt =====
-- The loop of a connection of peat-sapient/src/bridge.rs as events of the bridge.
use peat_sapient.Base.{ℕ, String, ◌≡◌, sym, ap, Option, none, List, [], ◌∷◌, arith}
use peat_sapient.Base.Int.{ℤ}
use peat_sapient.Float.{Float}
use peat_sapient.Json.{Json}
use peat_sapient.Error.{Result, ok, err}
use peat_sapient.Proto.{SapientMessage}
use peat_sapient.Bridge.State.{Clock}
use peat_sapient.Bridge.Connection.{on_message, on_close}
use peat_sapient.Bridge.Connection.World.{World, Event, message, closes, assign, step, run}
use peat_sapient.Bridge.Serve.{read_loop, run_connection}

module _ {fl : Float} where
  -- The events of a connection that reads this: its messages up to the first error, and its end.
  abbrev pub rounds : ℕ → List (Clock × Result (SapientMessage fl)) → List (Event fl)
  rounds conn [] = closes conn ∷ []
  rounds conn ((clock, err e) ∷ rest) = closes conn ∷ []
  rounds conn ((clock, ok msg) ∷ rest) = message clock conn msg ∷ rounds conn rest

assign-same :
    (conn : ℕ) (local : Option String) (locals : ℕ → Option String)
    → assign conn local locals conn ≡ local
unfolding assign
assign-same conn local locals = ground arith

module _ {fl : Float} (js : Json fl) (display : ℤ → String) where
  run-rounds :
      (conn : ℕ) (reads : List (Clock × Result (SapientMessage fl))) (local : Option String)
      (w : World fl)
      → w.locals conn ≡ local
      → let (local', inner') = read_loop js display conn reads local w.inner in
        (run js display w (rounds conn reads)).inner ≡ on_close local' inner'
  unfolding run step read_loop
  run-rounds conn [] local w h = ap (λ l. on_close l w.inner) h
  run-rounds conn ((clock, err e) ∷ rest) local w h = ap (λ l. on_close l w.inner) h
  run-rounds conn ((clock, ok msg) ∷ rest) local w h =
      let local' = (on_message js display clock conn (w.locals conn) msg w.inner).0 in
      rw (sym h) (
        run-rounds conn rest local' (step js display w (message clock conn msg))
          (assign-same conn local' w.locals))

  -- Where a connection is new, its task has on the shared state the effect of these events one
  -- after the other: the messages that it reads before the first error, and then its end.
  pub run_connection-rounds :
      (conn : ℕ) (reads : List (Clock × Result (SapientMessage fl))) (w : World fl)
      → w.locals conn ≡ none
      → run_connection js display conn reads w.inner ≡ (run js display w (rounds conn reads)).inner
  unfolding run_connection
  run_connection-rounds conn reads w h = sym (run-rounds conn reads none w h)
