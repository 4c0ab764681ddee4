-- ===== src/Mesh/Transport/Refinement.antt =====
-- What a subscriber of peat-mesh-sapient/src/transport.rs learns of the peers over a schedule.
use peat_sapient.Base.{
  ℕ, zero, suc, ◌+◌, ◌≤◌, ◌<◌, String, ◌≡◌, refl, ◌∙◌, true, Option, none, some, List, [], ◌∷◌,
  ◌++◌, arith, length, All, Bool-cases, Option-cases, inl, inr,
}
use peat_sapient.Base.Dict
use peat_sapient.Float.{Float}
use peat_sapient.Json.{Json}
use peat_sapient.Codec.{Prost}
use peat_sapient.Error.{Result, ok, err}
use peat_sapient.Proto.{SapientMessage}
use peat_sapient.Mesh.Receive.{Node}
use peat_sapient.Mesh.Transport.{SapientRole, PeerEvent, LoopState, new, get_elem?, update}
use peat_sapient.Mesh.Transport.Peers.{subscribe_peer_events}
use peat_sapient.Mesh.Transport.Loops.{
  bound_in, accepted_in, dialled_in, close_link, is_running, resumed_in,
}
use peat_sapient.Mesh.Transport.Run.{
  Event, started, stopped, disconnecting, subscribed, sending, took, unsubscribed, bound, accepted,
  dialled, resumed, received, wrote, SapientTransport, received_in, step, run, in_loop, take_event,
  drop_receiver,
}
use peat_sapient.Mesh.Transport.Tracking.{
  is_connected, Change, Change-same, disconnect-Change, start-Change, send_outbound-Change,
  write-Change, bound_in-Change, accepted_in-Change, dialled_in-Change, resumed_in-Change,
}
use peat_sapient.Mesh.Transport.Follow.{
  replay, nobody, history, Steady, Tracks, Change-Tracks, replaced-Tracks, take_event-kept,
}

module _ {fl : Float} (js : Json fl) (prost : Prost (SapientMessage fl)) (capacity : ℕ) where
  open js use {Value}

  in_loop-Change :
      (id : ℕ) (f : LoopState → SapientTransport js prost → SapientTransport js prost)
      (t : SapientTransport js prost)
      → ((l : LoopState) → Change capacity t (f l t))
      → Change capacity t (in_loop id f t)
  in_loop-Change id f t h = elim (Option-cases (get_elem? t.loops id)) [
    | inl e ↦ rw (in_loop, e) (Change-same capacity t t refl refl)
    | inr (l, e) ↦ rw (in_loop, e) (h l)
  ]

  received_in-Change :
      (outcome : Result (Option (SapientMessage fl))) (link : ℕ) (t : SapientTransport js prost)
      → Change capacity t (received_in js prost outcome link t)
  unfolding received_in close_link
  received_in-Change (ok (some msg)) link t =
      Change-same capacity t (received_in js prost (ok (some msg)) link t) refl refl
  received_in-Change (ok none) link t =
      Change-same capacity t (received_in js prost (ok none) link t) refl refl
  received_in-Change (err e) link t =
      Change-same capacity t (received_in js prost (err e) link t) refl refl

  received-Change :
      (outcome : Result (Option (SapientMessage fl))) (link : ℕ) (t : SapientTransport js prost)
      → Change capacity t (step js prost capacity (received link outcome) t)
  unfolding step
  received-Change outcome link t = elim (Bool-cases (is_running link t)) [
    | inl e ↦ rw (step, e) (received_in-Change outcome link t)
    | inr e ↦ rw (step, e) (Change-same capacity t t refl refl)
  ]

  changed :
      (n : ℕ) (e : Event fl) (t : SapientTransport js prost)
      → n < capacity
      → Tracks n t
      → Change capacity t (step js prost capacity e t)
      → Tracks (suc n) (step js prost capacity e t)
  changed n e t h k c = Change-Tracks capacity n t (step js prost capacity e t) h c k

  step-Tracks :
      (n : ℕ) (e : Event fl) (t : SapientTransport js prost)
      → n < capacity
      → Steady e
      → Tracks n t
      → Tracks (suc n) (step js prost capacity e t)
  unfolding step subscribe_peer_events drop_receiver
  step-Tracks n (started now) t h q k = changed n (started now) t h k (start-Change capacity now t)
  step-Tracks n stopped t h q k = elim q [ ]
  step-Tracks n (disconnecting p now) t h q k =
      changed n (disconnecting p now) t h k (disconnect-Change capacity p now t)
  step-Tracks n subscribed t h q k =
      replaced-Tracks n t (step js prost capacity subscribed t) k.first
        (k.rest ++ record { received = []; queue = []; listening = true } ∷ []) k (rw k.senders)
        refl k.listening k.room refl
  step-Tracks n (sending bytes) t h q k =
      changed n (sending bytes) t h k (send_outbound-Change capacity bytes t)
  step-Tracks n (took zero) t h q k =
      let kept = take_event-kept k.first in
      replaced-Tracks n t (step js prost capacity (took zero) t) (take_event k.first) k.rest k
        (rw k.senders) refl (kept.2 ∙ k.listening) (omega (arith, kept.1, k.room)) kept.0
  step-Tracks n (took (suc i)) t h q k =
      replaced-Tracks n t (step js prost capacity (took (suc i)) t) k.first
        (update i take_event k.rest) k (rw k.senders) refl k.listening k.room refl
  step-Tracks n (unsubscribed zero) t h q k = elim q [ ]
  step-Tracks n (unsubscribed (suc i)) t h q k =
      replaced-Tracks n t (step js prost capacity (unsubscribed (suc i)) t) k.first
        (update i drop_receiver k.rest) k (rw k.senders) refl k.listening k.room refl
  step-Tracks n (bound id b) t h q k =
      changed n (bound id b) t h k
        (in_loop-Change id (λ l. bound_in l id b) t (λ l. bound_in-Change capacity l id b t))
  step-Tracks n (accepted id p now) t h q k = changed n (accepted id p now) t h k (
      in_loop-Change id (λ l. accepted_in l capacity p now) t
        (λ l. accepted_in-Change capacity l p now t))
  step-Tracks n (dialled id now) t h q k = changed n (dialled id now) t h k (
      in_loop-Change id (λ l. dialled_in t.role l capacity id now) t
        (λ l. dialled_in-Change capacity t.role l id now t))
  step-Tracks n (resumed id now) t h q k = changed n (resumed id now) t h k (
      in_loop-Change id (λ l. resumed_in t.role l capacity id now) t
        (λ l. resumed_in-Change capacity t.role l id now t))
  step-Tracks n (received link outcome) t h q k =
      changed n (received link outcome) t h k (received-Change outcome link t)
  step-Tracks n (wrote link success) t h q k =
      changed n (wrote link success) t h k (write-Change capacity link success t)

  run-Tracks :
      (n : ℕ) (es : List (Event fl)) (t : SapientTransport js prost)
      → n + length es ≤ capacity
      → All Steady es
      → Tracks n t
      → Tracks (n + length es) (run js prost capacity es t)
  unfolding run
  run-Tracks n [] t h q k = let e : n + 0 ≡ n = omega arith in rw e k
  run-Tracks n (e ∷ es) t h q k =
      let s : n + suc (length es) ≡ suc n + length es = omega arith in
      rw s (
        run-Tracks (suc n) es (step js prost capacity e t) (omega arith) q.1
          (step-Tracks n e t (omega arith) q.0 k))

  new-Tracks :
      (role : SapientRole) (mesh : Node fl Value) → Tracks 0 (subscribe_peer_events (new role mesh))
  unfolding subscribe_peer_events new Dict.get
  new-Tracks role mesh = record {
    first = record { received = []; queue = []; listening = true };
    rest = [];
    senders = refl;
    listening = refl;
    room = omega arith;
    faithful = λ p. refl;
  }

  -- The events of the first subscriber.
  abbrev pub told : SapientTransport js prost → List PeerEvent
  told t = elim t.event_senders [ [] ↦ [] | s ∷ rest ↦ history s ]

  -- From a new transport with one subscriber, over every schedule of calls, accepted and dialled
  -- connections, received messages, lost connections and reconnections that has no `stop`, keeps that
  -- subscriber and has no more steps than its channel has room for events: replaying the events that
  -- it was sent, `Connected` adding a peer and `Disconnected` removing one, gives exactly the peers
  -- that have a record.
  pub told-refines :
      (role : SapientRole) (mesh : Node fl Value) (es : List (Event fl)) (p : String)
      → All Steady es
      → length es ≤ capacity
      → let u = run js prost capacity es (subscribe_peer_events (new role mesh)) in
        replay (told u) nobody p ≡ is_connected u p
  told-refines role mesh es p steady fits =
      let t = subscribe_peer_events (new role mesh) in
      let k = run-Tracks 0 es t (omega arith) steady (new-Tracks role mesh) in
      rw (told, k.senders) (k.faithful p)
