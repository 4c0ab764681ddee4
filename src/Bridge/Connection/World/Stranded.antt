-- ===== src/Bridge/Connection/World/Stranded.antt =====
-- A sensor of peat-sapient/src/bridge.rs that reconnected before its old connection ended.
use peat_sapient.Base.{
  ℕ, String, ◌≡◌, refl, Bool, true, false, not, ◌&&◌, ◌||◌, Option, none, some, List, [], ◌∷◌,
  arith, All, ◌==◌, ==_iff, str_eq, eq_iff, unwrap_or,
}
use peat_sapient.Base.Int.{ℤ}
use peat_sapient.Base.Dict
use peat_sapient.Base.Dict.{get-insert, get-remove}
use peat_sapient.Float.{Float}
use peat_sapient.Json.{Json}
use peat_sapient.Error.{Result, ok, err}
use peat_sapient.Proto.{SapientMessage}
use peat_sapient.Bridge.State.{BridgeInner, Clock, write, emit}
use peat_sapient.Bridge.Outbound.{send_task, extract_task_id, queue_task, deliver}
use peat_sapient.Bridge.Connection.{
  greet, register, expire_tasks, is_registration, handle, on_message, on_close,
}
use peat_sapient.Bridge.Connection.Replay.{write_all-appends}
use peat_sapient.Bridge.Connection.World.{
  World, Event, message, closes, sends, acknowledges, sweeps, assign, step, run,
}
use peat_sapient.Bridge.Connection.World.Frame.{send_task-keeps, send_alert_ack-keeps}
use peat_sapient.Bridge.Connection.World.Live.{settle-connections}

module _ {fl : Float} where
  -- The event does not end the connection, and registers the node on no other.
  abbrev pub Leaves : String → ℕ → Event fl → Type 0
  Leaves j conn (message clock c msg) =
      (c == conn || not (is_registration msg.content && str_eq (unwrap_or "" msg.node_id) j)) ≡ true
  Leaves j conn (closes c) = (c == conn) ≡ false
  Leaves j conn (sends clock node_id msg c) = Unit {0}
  Leaves j conn (acknowledges clock node_id id s r) = Unit {0}
  Leaves j conn (sweeps room interval now) = Unit {0}

  -- The connection registered as the node, which has no connection.
  abbrev IsStranded : String → ℕ → BridgeInner fl → (ℕ → Option String) → Type 0
  IsStranded j conn inner locals = (locals conn ≡ some j) × (Dict.get j inner.connections ≡ none)

  greet-IsStranded :
      (j : String) (conn : ℕ) (clock : Clock) (c : ℕ) (b : Bool) (locals : ℕ → Option String)
      (local : Option String) (node_id : String) (inner : BridgeInner fl)
      → locals c ≡ local
      → (c == conn || not (b && str_eq node_id j)) ≡ true
      → IsStranded j conn inner locals
      → let (local', inner') = greet clock c b local node_id inner in
        IsStranded j conn inner' (assign c local' locals)
  unfolding greet register write expire_tasks assign
  greet-IsStranded j conn clock c true locals none node_id inner l left h = rw write_all-appends (
    ground (arith, ==_iff c conn, h.0),
    ground (
      arith,
      ==_iff c conn,
      eq_iff node_id j,
      h.0,
      h.1,
      get-insert j node_id c inner.connections,
    ),
  )
  greet-IsStranded j conn clock c true locals (some i) node_id inner l left h =
      (ground (arith, ==_iff c conn, h.0), h.1)
  greet-IsStranded j conn clock c false locals local node_id inner l left h =
      (ground (arith, ==_iff c conn, h.0), h.1)

  close-IsStranded :
      (j : String) (conn c : ℕ) (locals : ℕ → Option String) (local : Option String)
      (inner : BridgeInner fl)
      → (c == conn) ≡ false
      → IsStranded j conn inner locals
      → IsStranded j conn (on_close local inner) (assign c none locals)
  unfolding on_close emit assign
  close-IsStranded j conn c locals none inner other h = (ground (arith, ==_iff c conn, h.0), h.1)
  close-IsStranded j conn c locals (some i) inner other h =
      (ground (arith, ==_iff c conn, h.0), ground (arith, h.1, get-remove j i inner.connections))

  -- The end of another connection of the node takes its connection away.
  close-strands :
      (j : String) (conn old : ℕ) (locals : ℕ → Option String) (inner : BridgeInner fl)
      → (old == conn) ≡ false
      → locals conn ≡ some j
      → IsStranded j conn (on_close (some j) inner) (assign old none locals)
  unfolding on_close emit assign
  close-strands j conn old locals inner other open_at = (
    ground (arith, ==_iff old conn, open_at),
    ground (arith, eq_iff j j, get-remove j j inner.connections),
  )

  send_task-unsent :
      (clock : Clock) (j : String) (msg : SapientMessage fl) (c : Option String)
      (inner : BridgeInner fl)
      → Dict.get j inner.connections ≡ none
      → (send_task clock j msg c inner).0.sent ≡ inner.sent
  unfolding send_task queue_task deliver
  send_task-unsent clock j msg c inner gone = go (extract_task_id msg) refl
    where
      go :
          (r : Result String)
          → extract_task_id msg ≡ r
          → (send_task clock j msg c inner).0.sent ≡ inner.sent
      go (ok task_id) e = rw (e, send_task, deliver, gone) refl
      go (err x) e = rw (e, send_task) refl

module _ {fl : Float} (js : Json fl) (display : ℤ → String) where
  step-IsStranded :
      (j : String) (conn : ℕ) (w : World fl) (e : Event fl)
      → Leaves j conn e
      → IsStranded j conn w.inner w.locals
      → let w' = step js display w e in IsStranded j conn w'.inner w'.locals
  unfolding step on_message handle
  step-IsStranded j conn w (message clock c msg) left h = rw settle-connections (
      greet-IsStranded j conn clock c (is_registration msg.content) w.locals (w.locals c)
        (unwrap_or "" msg.node_id) w.inner refl left h)
  step-IsStranded j conn w (closes c) left h =
      close-IsStranded j conn c w.locals (w.locals c) w.inner left h
  step-IsStranded j conn w (sends clock node_id msg c) left h =
      rw (send_task-keeps clock node_id msg c w.inner).0 h
  step-IsStranded j conn w (acknowledges clock node_id id s r) left h =
      rw (send_alert_ack-keeps clock node_id id s r w.inner).0 h
  step-IsStranded j conn w (sweeps room interval now) left h = h

  run-IsStranded :
      (j : String) (conn : ℕ) (w : World fl) (es : List (Event fl))
      → All (Leaves j conn) es
      → IsStranded j conn w.inner w.locals
      → let w' = run js display w es in IsStranded j conn w'.inner w'.locals
  unfolding run
  run-IsStranded j conn w [] left h = h
  run-IsStranded j conn w (e ∷ es) left h =
      run-IsStranded j conn (step js display w e) es left.1 (step-IsStranded j conn w e left.0 h)

  -- Where two open connections have registered as one node and one of them ends, the other is cut off
  -- for as long as it stays open and the node registers on no further connection, whatever else
  -- happens: it still counts as registered, the node has no connection, and a task that is sent to
  -- the node is handed to none.
  pub on_close-strands :
      (w : World fl) (j : String) (old conn : ℕ) (es : List (Event fl)) (clock : Clock)
      (msg : SapientMessage fl) (command_id : Option String)
      → w.locals old ≡ some j
      → w.locals conn ≡ some j
      → (old == conn) ≡ false
      → All (Leaves j conn) es
      → let u = run js display w (closes old ∷ es) in
        (u.locals conn ≡ some j)
        × (Dict.get j u.inner.connections ≡ none)
        × ((send_task clock j msg command_id u.inner).0.sent ≡ u.inner.sent)
  unfolding run step
  on_close-strands w j old conn es clock msg command_id at_old at_conn other left =
      let first = step js display w (closes old) in
      let begun : IsStranded j conn first.inner first.locals =
        rw at_old (close-strands j conn old w.locals w.inner other at_conn) in
      let (kept, gone) = run-IsStranded j conn first es left begun in
      (kept, gone, send_task-unsent clock j msg command_id (run js display first es).inner gone)
