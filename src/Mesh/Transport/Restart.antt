-- ===== src/Mesh/Transport/Restart.antt =====
-- A started DLMM transport of peat-mesh-sapient/src/transport.rs over schedules.
use peat_sapient.Base.{
  ℕ, String, ◌≡◌, refl, sym, subst, ◌∙◌, Option, none, some, List, [], ◌∷◌, arith, Bool-cases, inl,
  inr,
}
use peat_sapient.Float.{Float}
use peat_sapient.Json.{Json}
use peat_sapient.Codec.{Prost}
use peat_sapient.Error.{Result, ok, err}
use peat_sapient.Proto.{SapientMessage}
use peat_sapient.Mesh.Transport.{SapientRole, dlmm}
use peat_sapient.Mesh.Transport.Peers.{subscribe_peer_events}
use peat_sapient.Mesh.Transport.Loops.{
  bound_in, accepted_in, dialled_in, close_link, is_running, resumed_in,
}
use peat_sapient.Mesh.Transport.Run.{
  Event, started, stopped, disconnecting, subscribed, sending, took, unsubscribed, bound, accepted,
  dialled, resumed, received, wrote, SapientTransport, received_in, step, run,
}
use peat_sapient.Mesh.Transport.Lifecycle.{Stage, over, Stage-same, close_link-Stage}
use peat_sapient.Mesh.Transport.Stages.{disconnect-Stage, dialled_in-Stage, resumed_in-Stage}
use peat_sapient.Mesh.Transport.Stopping.{stop-IsOver}
use peat_sapient.Mesh.Transport.Shutdown.{
  Stage-Idle, bound_in-Idle, accepted_in-Idle, in_loop-keeps, start-panicked, send_outbound-Stage,
  write-Stage,
}
use peat_sapient.Mesh.Transport.Roles.{
  stop-role, disconnect-role, start-role, send_outbound-role, bound_in-role, accepted_in-role,
  dialled_in-role, resumed_in-role, write-role,
}

module _ {fl : Float} (js : Json fl) (prost : Prost (SapientMessage fl)) (capacity : ℕ)
    (addr peer : String) where
  open js use {Value}

  pub step-role :
      (e : Event fl) (t : SapientTransport js prost) → (step js prost capacity e t).role ≡ t.role
  unfolding step subscribe_peer_events received_in close_link
  step-role (started now) t = start-role now t
  step-role stopped t = stop-role t
  step-role (disconnecting p now) t = disconnect-role capacity p now t
  step-role subscribed t = refl
  step-role (sending bytes) t = send_outbound-role bytes t
  step-role (took i) t = refl
  step-role (unsubscribed i) t = refl
  step-role (bound id b) t =
      in_loop-keeps addr peer (λ u. u.role ≡ t.role) id (λ l. bound_in l id b) t refl
        (λ l _. bound_in-role l id b t)
  step-role (accepted id p now) t =
      in_loop-keeps addr peer (λ u. u.role ≡ t.role) id (λ l. accepted_in l capacity p now) t refl
        (λ l _. accepted_in-role l capacity p now t)
  step-role (dialled id now) t =
      in_loop-keeps addr peer (λ u. u.role ≡ t.role) id (λ l. dialled_in t.role l capacity id now) t
        refl (λ l _. dialled_in-role t.role l capacity id now t)
  step-role (resumed id now) t =
      in_loop-keeps addr peer (λ u. u.role ≡ t.role) id (λ l. resumed_in t.role l capacity id now) t
        refl (λ l _. resumed_in-role t.role l capacity id now t)
  step-role (received link outcome) t = ground arith
  step-role (wrote link b) t = write-role link b t

  received-Stage :
      (outcome : Result (Option (SapientMessage fl))) (link : ℕ) (t : SapientTransport js prost)
      → Stage addr peer t
      → Stage addr peer (received_in js prost outcome link t)
  unfolding received_in
  received-Stage (ok (some msg)) link t s =
      Stage-same addr peer t (received_in js prost (ok (some msg)) link t) refl refl refl refl refl
        s
  received-Stage (ok none) link t s = close_link-Stage addr peer link t s
  received-Stage (err e) link t s = close_link-Stage addr peer link t s

  step-Stage :
      (e : Event fl) (t : SapientTransport js prost)
      → t.role ≡ dlmm addr peer
      → Stage addr peer t
      → Stage addr peer (step js prost capacity e t)
  unfolding step subscribe_peer_events
  step-Stage (started now) t r s = rw (step, start-panicked addr peer now t r s) s
  step-Stage stopped t r s = let o = stop-IsOver addr peer t s in over o.loops o.receiver
  step-Stage (disconnecting p now) t r s = disconnect-Stage addr peer capacity p now t s
  step-Stage subscribed t r s = Stage-same addr peer t _ refl refl refl refl refl s
  step-Stage (sending bytes) t r s = send_outbound-Stage addr peer bytes t s
  step-Stage (took i) t r s = Stage-same addr peer t _ refl refl refl refl refl s
  step-Stage (unsubscribed i) t r s = Stage-same addr peer t _ refl refl refl refl refl s
  step-Stage (bound id b) t r s =
      in_loop-keeps addr peer (Stage addr peer) id (λ l. bound_in l id b) t s
        (λ l e. rw (bound_in-Idle l id b t (Stage-Idle addr peer id l t s e)) s)
  step-Stage (accepted id p now) t r s =
      in_loop-keeps addr peer (Stage addr peer) id (λ l. accepted_in l capacity p now) t s
        (λ l e. rw (accepted_in-Idle l capacity p now t (Stage-Idle addr peer id l t s e)) s)
  step-Stage (dialled id now) t r s =
      in_loop-keeps addr peer (Stage addr peer) id (λ l. dialled_in t.role l capacity id now) t s
        (λ l e.
          subst (λ (w : SapientRole). Stage addr peer (dialled_in w l capacity id now t)) (sym r)
            (dialled_in-Stage addr peer capacity id now t l e s))
  step-Stage (resumed id now) t r s =
      in_loop-keeps addr peer (Stage addr peer) id (λ l. resumed_in t.role l capacity id now) t s
        (λ l e.
          subst (λ (w : SapientRole). Stage addr peer (resumed_in w l capacity id now t)) (sym r)
            (resumed_in-Stage addr peer capacity id now t l e s))
  step-Stage (received link outcome) t r s = elim (Bool-cases (is_running link t)) [
    | inl e ↦ rw (step, e) (received-Stage outcome link t s)
    | inr e ↦ rw (step, e) s
  ]
  step-Stage (wrote link b) t r s = write-Stage addr peer link b t s

  pub run-Stage :
      (es : List (Event fl)) (t : SapientTransport js prost)
      → t.role ≡ dlmm addr peer
      → Stage addr peer t
      → ((run js prost capacity es t).role ≡ dlmm addr peer)
        × Stage addr peer (run js prost capacity es t)
  unfolding run
  run-Stage [] t r s = (r, s)
  run-Stage (e ∷ es) t r s =
      run-Stage es (step js prost capacity e t) (step-role e t ∙ r) (step-Stage e t r s)
