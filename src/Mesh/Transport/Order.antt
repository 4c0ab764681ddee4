-- ===== src/Mesh/Transport/Order.antt =====
-- The outbound messages of peat-mesh-sapient/src/transport.rs over a schedule, reconnections included.
use mathlib.Core.List.{append_assoc, append-nil}
use peat_sapient.Base.{
  ℕ, ◌≤◌, ◌≡◌, refl, Option, none, some, List, [], ◌∷◌, ◌++◌, map, arith, length, Bool-cases,
  Option-cases, inl, inr, ◌⊎◌, true, false, ◌+◌,
}
use peat_sapient.Float.{Float}
use peat_sapient.Json.{Json}
use peat_sapient.Codec.{Prost}
use peat_sapient.Error.{Result, ok, err}
use peat_sapient.Proto.{SapientMessage}
use peat_sapient.Mesh.Receive.{Node}
use peat_sapient.Mesh.Transport.{SapientRole, LoopState, Transport, new, get_elem?}
use peat_sapient.Mesh.Transport.Peers.{subscribe_peer_events}
use peat_sapient.Mesh.Transport.Loops.{
  send_outbound, bound_in, accepted_in, dialled_in, is_running, resumed_in, outbound_channel_depth,
}
use peat_sapient.Mesh.Transport.Run.{
  Event, started, stopped, disconnecting, subscribed, sending, took, unsubscribed, bound, accepted,
  dialled, resumed, received, wrote, SapientTransport, received_in, step, run, in_loop,
}
use peat_sapient.Mesh.Transport.Outbound.{
  Still, is_dropped, stop-Still, disconnect-Still, start-Still, bound_in-Still, accepted_in-Still,
  dialled_in-Still, resumed_in-Still,
}
use peat_sapient.Mesh.Transport.Accounts.{
  taken, Accounts, Accounts-Still, send_outbound-Accounts, write-Accounts, close_link-Still,
}

module _ {N : Type 0} where
  pub in_loop-Still :
      (id : ℕ) (f : LoopState → Transport N → Transport N) (t : Transport N)
      → ((l : LoopState) → Still t (f l t))
      → Still t (in_loop id f t)
  in_loop-Still id f t h = elim (Option-cases (get_elem? t.loops id)) [
    | inl e ↦ rw (in_loop, e) (refl, inl (refl, refl))
    | inr (l, e) ↦ rw (in_loop, e) (h l)
  ]

module _ {fl : Float} (js : Json fl) (prost : Prost (SapientMessage fl)) (capacity : ℕ) where
  open js use {Value}

  received_in-Still :
      (outcome : Result (Option (SapientMessage fl))) (link : ℕ) (t : SapientTransport js prost)
      → Still t (received_in js prost outcome link t)
  unfolding received_in
  received_in-Still (ok (some msg)) link t = (refl, inl (refl, refl))
  received_in-Still (ok none) link t = close_link-Still link t
  received_in-Still (err e) link t = close_link-Still link t

  -- The message that an event puts into the channel.
  abbrev accepted_now : Event fl → SapientTransport js prost → List (List ℕ)
  accepted_now (sending bytes) t = taken (send_outbound bytes t).0 bytes
  accepted_now _ t = []

  -- The messages that the sink accepted along a schedule, in order.
  abbrev pub sent_along : List (Event fl) → SapientTransport js prost → List (List ℕ)
  sent_along [] t = []
  sent_along (e ∷ es) t = accepted_now e t ++ sent_along es (step js prost capacity e t)

  pub received-Still :
      (outcome : Result (Option (SapientMessage fl))) (link : ℕ) (t : SapientTransport js prost)
      → Still t (step js prost capacity (received link outcome) t)
  unfolding step
  received-Still outcome link t = elim (Bool-cases (is_running link t)) [
    | inl e ↦ rw (step, e) (received_in-Still outcome link t)
    | inr e ↦ rw (step, e) (refl, inl (refl, refl))
  ]

  still :
      (sent : List (List ℕ)) (e : Event fl) (t : SapientTransport js prost)
      → Still t (step js prost capacity e t)
      → Accounts sent t
      → Accounts (sent ++ []) (step js prost capacity e t)
  still sent e t h a = rw (append-nil sent) (Accounts-Still sent t (step js prost capacity e t) h a)

  step-Accounts :
      (sent : List (List ℕ)) (e : Event fl) (t : SapientTransport js prost)
      → Accounts sent t
      → Accounts (sent ++ accepted_now e t) (step js prost capacity e t)
  unfolding step subscribe_peer_events
  step-Accounts s (started now) t = still s (started now) t (start-Still now t)
  step-Accounts s stopped t = still s stopped t (stop-Still t)
  step-Accounts s (disconnecting p now) t =
      still s (disconnecting p now) t (disconnect-Still capacity p now t)
  step-Accounts s subscribed t = still s subscribed t (refl, inl (refl, refl))
  step-Accounts s (sending bytes) t = send_outbound-Accounts s bytes t
  step-Accounts s (took i) t = still s (took i) t (refl, inl (refl, refl))
  step-Accounts s (unsubscribed i) t = still s (unsubscribed i) t (refl, inl (refl, refl))
  step-Accounts s (bound id b) t =
      still s (bound id b) t
        (in_loop-Still id (λ l. bound_in l id b) t (λ l. bound_in-Still l id b t))
  step-Accounts s (accepted id p now) t = still s (accepted id p now) t (
      in_loop-Still id (λ l. accepted_in l capacity p now) t
        (λ l. accepted_in-Still l capacity p now t))
  step-Accounts s (dialled id now) t = still s (dialled id now) t (
      in_loop-Still id (λ l. dialled_in t.role l capacity id now) t
        (λ l. dialled_in-Still t.role l capacity id now t))
  step-Accounts s (resumed id now) t = still s (resumed id now) t (
      in_loop-Still id (λ l. resumed_in t.role l capacity id now) t
        (λ l. resumed_in-Still t.role l capacity id now t))
  step-Accounts s (received link outcome) t =
      still s (received link outcome) t (received-Still outcome link t)
  step-Accounts s (wrote link success) t =
      λ a. rw (append-nil s) (write-Accounts s link success t a)

  run-Accounts :
      (sent : List (List ℕ)) (es : List (Event fl)) (t : SapientTransport js prost)
      → Accounts sent t
      → Accounts (sent ++ sent_along es t) (run js prost capacity es t)
  unfolding run
  run-Accounts sent [] t a = rw (append-nil sent) a
  run-Accounts sent (e ∷ es) t a =
      rw (← append_assoc sent (accepted_now e t) (sent_along es (step js prost capacity e t))) (
        run-Accounts (sent ++ accepted_now e t) es (step js prost capacity e t)
          (step-Accounts sent e t a))

  -- Over every schedule of a new transport, with its stops, disconnects, lost connections and
  -- reconnections, the messages that the sink accepted are, in the order in which it accepted them:
  -- those that were written to the connections, or lost with one in a failed write; then those that
  -- wait in the channel; then those that were lost with the channel's receiver. Nothing is lost with it
  -- before it is dropped, nothing waits afterwards, and those that wait or were lost with it are 64 at
  -- most.
  pub writes-ordered :
      (role : SapientRole) (mesh : Node fl Value) (es : List (Event fl))
      → let u = run js prost capacity es (new role mesh) in
        (lost : List (List ℕ)) × (map (λ w. w.0) u.writes ++ (u.outbound ++ lost)
          ≡ sent_along es (new role mesh))
        × (((is_dropped u.receiver ≡ false) × (lost ≡ []))
            ⊎ ((is_dropped u.receiver ≡ true) × (u.outbound ≡ [])))
        × (length u.outbound + length lost ≤ outbound_channel_depth)
  unfolding new
  writes-ordered role mesh es =
      let first : Accounts [] (new role mesh) = record {
        lost = [];
        split = refl;
        few = omega arith;
        whole = inl (refl, refl);
      } in
      let a = run-Accounts [] es (new role mesh) first in (a.lost, a.split, a.whole, a.few)
