-- ===== src/Mesh/Transport/Ending.antt =====
-- A DLMM transport of peat-mesh-sapient/src/transport.rs after `stop`.
use peat_sapient.Base.{
  ℕ, String, ◌≡◌, refl, ap, ◌∙◌, Bool, Option, none, some, List, [], ◌∷◌, arith, Bool-cases,
  Option-cases, inl, inr,
}
use peat_sapient.Base.Dict
use peat_sapient.Float.{Float}
use peat_sapient.Json.{Json}
use peat_sapient.Codec.{Prost}
use peat_sapient.Error.{Result, ok, err}
use peat_sapient.Proto.{SapientMessage}
use peat_sapient.Mesh.Receive.{Node}
use peat_sapient.Mesh.Transport.{
  SapientRole, hldmm, dlmm, LoopState, ended, dropped, Transport, new, get_elem?,
}
use peat_sapient.Mesh.Transport.Peers.{
  disconnect, stop, subscribe_peer_events, emit_event, drop_from_link,
}
use peat_sapient.Mesh.Transport.Loops.{
  Sent, closed, Started, panicked, start, start_as, start_dlmm, spawn, send_outbound, send_as, push,
  bound_in, accepted_in, dialled_in, close_link, is_running, write, resumed_in, return_from_link,
}
use peat_sapient.Mesh.Transport.Run.{
  Event, started, stopped, disconnecting, subscribed, sending, took, unsubscribed, bound, accepted,
  dialled, resumed, received, wrote, SapientTransport, received_in, step, run,
}
use peat_sapient.Mesh.Transport.Lifecycle.{
  Stage, dials, over, IsOver, abort_link-frame, abort_link-receiver,
}
use peat_sapient.Mesh.Transport.Stages.{only_loop}
use peat_sapient.Mesh.Transport.Stopping.{stop-IsOver}
use peat_sapient.Mesh.Transport.Shutdown.{
  bound_in-Idle, accepted_in-Idle, in_loop-keeps, start-panicked,
}
use peat_sapient.Mesh.Transport.Roles.{stop-role, start-role}
use peat_sapient.Mesh.Transport.Restart.{step-role, run-Stage}
use peat_sapient.Mesh.Transport.Outbound.{
  stop-Still, disconnect-Still, bound_in-Still, accepted_in-Still, dialled_in-Still,
  resumed_in-Still,
}
use peat_sapient.Mesh.Transport.Order.{in_loop-Still, received-Still}

module _ {N : Type 0} (addr peer : String) where
  disconnect-IsOver :
      (capacity : ℕ) (q : String) (now : ℕ) (t : Transport N)
      → IsOver addr peer t
      → IsOver addr peer (disconnect capacity q now t).1
  unfolding disconnect emit_event drop_from_link
  disconnect-IsOver capacity q now t o = elim (Option-cases (Dict.get q t.peers)) [
    | inl e ↦ rw (disconnect, e) o
    | inr (r, e) ↦
        let v = record t { peers = Dict.remove q t.peers } in
        let f = abort_link-frame addr peer r.link v in
        rw (disconnect, e)
          (record {
            loops = f.0 ∙ o.loops;
            receiver = abort_link-receiver addr peer r.link v dropped refl o.receiver;
          })
  ]

  close_link-IsOver :
      (x : ℕ) (t : Transport N) → IsOver addr peer t → IsOver addr peer (close_link x t)
  unfolding close_link return_from_link
  close_link-IsOver x t o = record { loops = o.loops; receiver = rw o.receiver }

  send_outbound-over :
      (bytes : List ℕ) (t : Transport N)
      → t.role ≡ dlmm addr peer
      → IsOver addr peer t
      → send_outbound bytes t ≡ (closed, t)
  unfolding send_outbound send_as push
  send_outbound-over bytes t r o = ground (arith, r, o.receiver)

  write-over : (x : ℕ) (b : Bool) (t : Transport N) → IsOver addr peer t → write x b t ≡ t
  unfolding write
  write-over x b t o = ground (arith, o.receiver)

  ended-in :
      (id : ℕ) (l : LoopState) (t : Transport N)
      → IsOver addr peer t
      → get_elem? t.loops id ≡ some l
      → l ≡ ended
  ended-in id l t o e = let (first, same) = only_loop ended l id (rw o.loops at e) in same

  dialled-over :
      (role : SapientRole) (capacity id now : ℕ) (t : Transport N)
      → dialled_in role ended capacity id now t ≡ t
  unfolding dialled_in
  dialled-over (hldmm _) capacity id now t = refl
  dialled-over (dlmm _ _) capacity id now t = refl

  resumed-over :
      (role : SapientRole) (capacity id now : ℕ) (t : Transport N)
      → resumed_in role ended capacity id now t ≡ t
  unfolding resumed_in
  resumed-over (hldmm _) capacity id now t = refl
  resumed-over (dlmm _ _) capacity id now t = refl

module _ {fl : Float} (js : Json fl) (prost : Prost (SapientMessage fl)) (capacity : ℕ)
    (addr peer : String) where
  open js use {Value}

  received-IsOver :
      (outcome : Result (Option (SapientMessage fl))) (link : ℕ) (t : SapientTransport js prost)
      → IsOver addr peer t
      → IsOver addr peer (received_in js prost outcome link t)
  unfolding received_in
  received-IsOver (ok (some msg)) link t o = record { loops = o.loops; receiver = o.receiver }
  received-IsOver (ok none) link t o = close_link-IsOver addr peer link t o
  received-IsOver (err e) link t o = close_link-IsOver addr peer link t o

  step-IsOver :
      (e : Event fl) (t : SapientTransport js prost)
      → t.role ≡ dlmm addr peer
      → IsOver addr peer t
      → IsOver addr peer (step js prost capacity e t)
        × ((step js prost capacity e t).writes ≡ t.writes)
  unfolding step subscribe_peer_events
  step-IsOver (started now) t r o =
      rw (step, start-panicked addr peer now t r (over o.loops o.receiver)) (o, refl)
  step-IsOver stopped t r o = (stop-IsOver addr peer t (over o.loops o.receiver), (stop-Still t).0)
  step-IsOver (disconnecting p now) t r o =
      (disconnect-IsOver addr peer capacity p now t o, (disconnect-Still capacity p now t).0)
  step-IsOver subscribed t r o = (record { loops = o.loops; receiver = o.receiver }, refl)
  step-IsOver (sending bytes) t r o = rw (step, send_outbound-over addr peer bytes t r o) (o, refl)
  step-IsOver (took i) t r o = (record { loops = o.loops; receiver = o.receiver }, refl)
  step-IsOver (unsubscribed i) t r o = (record { loops = o.loops; receiver = o.receiver }, refl)
  step-IsOver (bound id b) t r o = (
    in_loop-keeps addr peer (IsOver addr peer) id (λ l. bound_in l id b) t o
        (λ l e. rw (bound_in-Idle l id b t (rw (ended-in addr peer id l t o e) tt)) o),
    (in_loop-Still id (λ l. bound_in l id b) t (λ l. bound_in-Still l id b t)).0,
  )
  step-IsOver (accepted id p now) t r o = (
    in_loop-keeps addr peer (IsOver addr peer) id (λ l. accepted_in l capacity p now) t o
        (λ l e. rw (accepted_in-Idle l capacity p now t (rw (ended-in addr peer id l t o e) tt)) o),
    (in_loop-Still id (λ l. accepted_in l capacity p now) t
        (λ l. accepted_in-Still l capacity p now t)).0,
  )
  step-IsOver (dialled id now) t r o = (
    in_loop-keeps addr peer (IsOver addr peer) id (λ l. dialled_in t.role l capacity id now) t o
        (λ l e.
          rw (ended-in addr peer id l t o e, dialled-over addr peer t.role capacity id now t) o),
    (in_loop-Still id (λ l. dialled_in t.role l capacity id now) t
        (λ l. dialled_in-Still t.role l capacity id now t)).0,
  )
  step-IsOver (resumed id now) t r o = (
    in_loop-keeps addr peer (IsOver addr peer) id (λ l. resumed_in t.role l capacity id now) t o
        (λ l e.
          rw (ended-in addr peer id l t o e, resumed-over addr peer t.role capacity id now t) o),
    (in_loop-Still id (λ l. resumed_in t.role l capacity id now) t
        (λ l. resumed_in-Still t.role l capacity id now t)).0,
  )
  step-IsOver (received link outcome) t r o = elim (Bool-cases (is_running link t)) [
    | inl e ↦
        rw (step, e)
          (
            received-IsOver outcome link t o,
            rw (step, e) at (received-Still js prost capacity outcome link t).0,
          )
    | inr e ↦ rw (step, e) (o, refl)
  ]
  step-IsOver (wrote link b) t r o = rw (step, write-over addr peer link b t o) (o, refl)

  run-IsOver :
      (es : List (Event fl)) (t : SapientTransport js prost)
      → t.role ≡ dlmm addr peer
      → IsOver addr peer t
      → let u = run js prost capacity es t in
        (u.role ≡ dlmm addr peer) × IsOver addr peer u × (u.writes ≡ t.writes)
  unfolding run
  run-IsOver [] t r o = (r, o, refl)
  run-IsOver (e ∷ es) t r o =
      let (next, same) = step-IsOver e t r o in
      let (role, last, rest) =
        run-IsOver es (step js prost capacity e t) (step-role js prost capacity addr peer e t ∙ r)
          next in
      (role, last, rest ∙ same)

  new-role : (mesh : Node fl Value) → (new (dlmm addr peer) mesh).role ≡ dlmm addr peer
  unfolding new
  new-role mesh = refl

  start-Stage :
      (now : ℕ) (mesh : Node fl Value) → Stage addr peer (start now (new (dlmm addr peer) mesh)).1
  unfolding start start_as start_dlmm spawn new
  start-Stage now mesh = dials refl refl refl

  -- A DLMM transport that was started and then stopped is over, whatever happened between the two and
  -- whatever is tried afterwards: `start` panics, the sink refuses every message as the channel is
  -- closed, no connection loop runs, and nothing is written that was not written before the stop.
  pub stopped-over :
      (mesh : Node fl Value) (es fs : List (Event fl)) (now later : ℕ) (bytes : List ℕ)
      → let t = run js prost capacity es (start now (new (dlmm addr peer) mesh)).1 in
        let u = run js prost capacity fs (stop t) in
        ((start later u).0 ≡ panicked)
        × ((send_outbound bytes u).0 ≡ closed)
        × (u.loops ≡ ended ∷ [])
        × (u.writes ≡ t.writes)
  stopped-over mesh es fs now later bytes =
      let first = (start now (new (dlmm addr peer) mesh)).1 in
      let begun : first.role ≡ dlmm addr peer =
        start-role now (new (dlmm addr peer) mesh) ∙ new-role mesh in
      let (role, stage) =
        run-Stage js prost capacity addr peer es first begun (start-Stage now mesh) in
      let t = run js prost capacity es first in
      let o = stop-IsOver addr peer t stage in
      let (role', last, same) = run-IsOver fs (stop t) (stop-role t ∙ role) o in
      let u = run js prost capacity fs (stop t) in
      (
        ap (λ (x : Started × SapientTransport js prost). x.0)
            (start-panicked addr peer later u role' (over last.loops last.receiver)),
        ap (λ (x : Sent × SapientTransport js prost). x.0)
            (send_outbound-over addr peer bytes u role' last),
        last.loops,
        same ∙ (stop-Still t).0,
      )
