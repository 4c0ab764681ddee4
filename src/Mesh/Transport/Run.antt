-- ===== src/Mesh/Transport/Run.antt =====
-- peat-mesh-sapient/src/transport.rs over a schedule: calls of the transport, and steps of its tasks
-- in any order. A step that its task cannot take changes nothing. One call of an operation, and one
-- round of a task between two waits, is one step.
use peat_sapient.Base.{
  ℕ, String, Bool, false, Option, none, some, List, [], ◌∷◌, ◌++◌, if◌then◌else◌,
}
use peat_sapient.Float.{Float}
use peat_sapient.Json.{Json}
use peat_sapient.Codec.{Prost}
use peat_sapient.Error.{Result, ok, err}
use peat_sapient.Proto.{SapientMessage}
use peat_sapient.Mesh.Receive.{Node, receive}
use peat_sapient.Mesh.Transport.{Subscriber, LoopState, Transport, get_elem?, update}
use peat_sapient.Mesh.Transport.Peers.{disconnect, stop, subscribe_peer_events}
use peat_sapient.Mesh.Transport.Loops.{
  start, send_outbound, bound_in, accepted_in, dialled_in, close_link, is_running, write,
  resumed_in,
}

-- Calls: start, stop, disconnect, subscribe, send. Of a subscriber: it takes an event out, or it is
-- dropped. Of a loop: its listener is bound or not, it accepted a connection or failed to, it
-- dialled one, the task of its connection is over. Of a link: `recv` returned, or an outbound message
-- was written or not.
pub data Event (fl : Float) : Type 0 where
  started : ℕ → Event fl
  stopped : Event fl
  disconnecting : String → ℕ → Event fl
  subscribed : Event fl
  sending : List ℕ → Event fl
  took : ℕ → Event fl
  unsubscribed : ℕ → Event fl
  bound : ℕ → Bool → Event fl
  accepted : ℕ → Result String → ℕ → Event fl
  dialled : ℕ → ℕ → Event fl
  resumed : ℕ → ℕ → Event fl
  received : ℕ → Result (Option (SapientMessage fl)) → Event fl
  wrote : ℕ → Bool → Event fl

unfoldable pub take_event : Subscriber → Subscriber
take_event s = elim s.queue [
  | [] ↦ s
  | e ∷ rest ↦ record s { received = s.received ++ e ∷ []; queue = rest }
]

unfoldable pub drop_receiver : Subscriber → Subscriber
drop_receiver s = record s { listening = false }

module _ {N : Type 0} where
  -- What the loop of the number does, if there is one.
  abbrev pub in_loop : ℕ → (LoopState → Transport N → Transport N) → Transport N → Transport N
  in_loop id f t = elim (get_elem? t.loops id) [ none ↦ t | some loop ↦ f loop t ]

module _ {fl : Float} (js : Json fl) (prost : Prost (SapientMessage fl)) where
  open js use {Value}

  abbrev pub SapientTransport : Type 0
  SapientTransport = Transport (Node fl Value)

  -- The `match connection::recv(…)` of both loops.
  unfoldable pub received_in :
      Result (Option (SapientMessage fl)) → ℕ → SapientTransport → SapientTransport
  unfolding close_link
  received_in (ok (some msg)) link t = record t { mesh = receive js prost msg t.mesh }
  received_in (ok none) link t = close_link link t
  received_in (err e) link t = close_link link t

  unfoldable pub step : ℕ → Event fl → SapientTransport → SapientTransport
  unfolding received_in take_event drop_receiver
  step capacity (started now) t = (start now t).1
  step capacity stopped t = stop t
  step capacity (disconnecting peer_id now) t = (disconnect capacity peer_id now t).1
  step capacity subscribed t = subscribe_peer_events t
  step capacity (sending bytes) t = (send_outbound bytes t).1
  step capacity (took i) t = record t { event_senders = update i take_event t.event_senders }
  step capacity (unsubscribed i) t = record t {
    event_senders = update i drop_receiver t.event_senders;
  }
  step capacity (bound id success) t = in_loop id (λ loop. bound_in loop id success) t
  step capacity (accepted id peer now) t = in_loop id (λ loop. accepted_in loop capacity peer now) t
  step capacity (dialled id now) t = in_loop id (λ loop. dialled_in t.role loop capacity id now) t
  step capacity (resumed id now) t = in_loop id (λ loop. resumed_in t.role loop capacity id now) t
  step capacity (received link outcome) t =
      if is_running link t then received_in outcome link t else t
  step capacity (wrote link success) t = write link success t

  unfoldable pub run : ℕ → List (Event fl) → SapientTransport → SapientTransport
  unfolding step
  run capacity [] t = t
  run capacity (e ∷ es) t = run capacity es (step capacity e t)
