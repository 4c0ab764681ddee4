-- ===== src/Mesh/Transport/Roles.antt =====
-- The role of a transport of peat-mesh-sapient/src/transport.rs never changes.
use peat_sapient.Base.{
  ℕ, String, ◌≡◌, refl, ◌∙◌, Bool, Option, none, some, List, [], ◌∷◌, arith, Option-cases, inl, inr,
}
use peat_sapient.Base.Dict
use peat_sapient.Base.Dict.{Dict}
use peat_sapient.Error.{Result}
use peat_sapient.Mesh.Transport.{
  PeerRecord, SapientRole, hldmm, dlmm, LoopState, binding, accepting, dialling, ended, serving,
  Receiver, held, with_loop, returned, dropped, with_link, Transport, update,
}
use peat_sapient.Mesh.Transport.Peers.{
  disconnect, stop, abort_link, emit_event, register_peer, deregister_peer, abort_record, abort_all,
  abort_loop,
}
use peat_sapient.Mesh.Transport.Loops.{
  resumed_with, start, start_as, start_dlmm, spawn, send_outbound, send_as, push, put, bound_in,
  accepted_in, dialled_in, close_link, write, write_head, resumed_in,
}

module _ {N : Type 0} where
  abort_link-role : (x : ℕ) (t : Transport N) → (abort_link x t).role ≡ t.role
  unfolding abort_link
  abort_link-role x t = ground arith

  abort_all-role : (peers : Dict PeerRecord) (t : Transport N) → (abort_all peers t).role ≡ t.role
  unfolding abort_all
  abort_all-role [] t = refl
  abort_all-role ((q, r) ∷ rest) t =
      abort_all-role rest (abort_link r.link t) ∙ abort_link-role r.link t

  abort_loop-role : (id : Option ℕ) (t : Transport N) → (abort_loop id t).role ≡ t.role
  unfolding abort_loop
  abort_loop-role none t = refl
  abort_loop-role (some id) t = refl

  pub stop-role : (t : Transport N) → (stop t).role ≡ t.role
  unfolding stop
  stop-role t =
      let u = record t { listener_task = none } in
      abort_all-role t.peers (record (abort_loop t.listener_task u) { peers = [] })
      ∙ abort_loop-role t.listener_task u

  pub disconnect-role :
      (capacity : ℕ) (q : String) (now : ℕ) (t : Transport N)
      → (disconnect capacity q now t).1.role ≡ t.role
  unfolding disconnect emit_event
  disconnect-role capacity q now t = elim (Option-cases (Dict.get q t.peers)) [
    | inl e ↦ rw (disconnect, e) refl
    | inr (r, e) ↦
        rw (disconnect, e) (abort_link-role r.link (record t { peers = Dict.remove q t.peers }))
  ]

  abort_record-role : (o : Option PeerRecord) (t : Transport N) → (abort_record o t).role ≡ t.role
  unfolding abort_record
  abort_record-role none t = refl
  abort_record-role (some r) t = abort_link-role r.link t

  deregister_peer-role :
      (capacity : ℕ) (p : String) (at now : ℕ) (t : Transport N)
      → (deregister_peer capacity p at now t).role ≡ t.role
  unfolding deregister_peer emit_event
  deregister_peer-role capacity p at now t =
      abort_record-role (Dict.get p t.peers) (record t { peers = Dict.remove p t.peers })

  pub start-role : (now : ℕ) (t : Transport N) → (start now t).1.role ≡ t.role
  unfolding start start_as start_dlmm spawn
  start-role now t = ground arith

  pub send_outbound-role :
      (bytes : List ℕ) (t : Transport N) → (send_outbound bytes t).1.role ≡ t.role
  unfolding send_outbound send_as push put
  send_outbound-role bytes t = ground arith

  pub bound_in-role :
      (l : LoopState) (id : ℕ) (b : Bool) (t : Transport N) → (bound_in l id b t).role ≡ t.role
  unfolding bound_in
  bound_in-role l id b t = ground arith

  pub accepted_in-role :
      (l : LoopState) (capacity : ℕ) (p : Result String) (now : ℕ) (t : Transport N)
      → (accepted_in l capacity p now t).role ≡ t.role
  unfolding accepted_in register_peer emit_event
  accepted_in-role l capacity p now t = ground arith

  pub dialled_in-role :
      (role : SapientRole) (l : LoopState) (capacity id now : ℕ) (t : Transport N)
      → (dialled_in role l capacity id now t).role ≡ t.role
  unfolding dialled_in register_peer emit_event
  dialled_in-role role l capacity id now t = ground arith

  resumed_with-role :
      (r : Receiver) (p : String) (capacity id at now : ℕ) (t : Transport N)
      → (resumed_with r p capacity id at now t).role ≡ t.role
  unfolding resumed_with
  resumed_with-role returned p capacity id at now t = ground (
    arith,
    deregister_peer-role capacity p at now
        (record t { loops = update id (λ _. dialling) t.loops; receiver = with_loop }),
  )
  resumed_with-role dropped p capacity id at now t = refl
  resumed_with-role held p capacity id at now t = refl
  resumed_with-role with_loop p capacity id at now t = refl
  resumed_with-role (with_link l) p capacity id at now t = refl

  pub resumed_in-role :
      (role : SapientRole) (l : LoopState) (capacity id now : ℕ) (t : Transport N)
      → (resumed_in role l capacity id now t).role ≡ t.role
  unfolding resumed_in
  resumed_in-role (hldmm _) l capacity id now t = refl
  resumed_in-role (dlmm a p) (serving k at) capacity id now t =
      resumed_with-role t.receiver p capacity id at now t
  resumed_in-role (dlmm a p) binding capacity id now t = refl
  resumed_in-role (dlmm a p) accepting capacity id now t = refl
  resumed_in-role (dlmm a p) dialling capacity id now t = refl
  resumed_in-role (dlmm a p) ended capacity id now t = refl

  pub write-role : (x : ℕ) (b : Bool) (t : Transport N) → (write x b t).role ≡ t.role
  unfolding write write_head close_link
  write-role x b t = ground arith
