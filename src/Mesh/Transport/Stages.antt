-- ===== src/Mesh/Transport/Stages.antt =====
-- The operations and the connect loop of peat-mesh-sapient/src/transport.rs, from stage to stage of a
-- started DLMM transport.
use peat_sapient.Base.{
  ℕ, zero, suc, String, ◌≡◌, ◌≢◌, refl, sym, subst, ◌∙◌, true, false, some, [], ◌∷◌, ◌-◌, arith,
  ◌==◌, ==_iff, str_eq, eq_iff, eq_refl, is_some, length, Bool-cases, Option-cases, inl, inr,
}
use peat_sapient.Base.Dict
use peat_sapient.Base.Dict.{Dict, get-insert, get-remove}
use peat_sapient.Mesh.Transport.{
  dlmm, PeerRecord, LoopState, dialling, ended, serving, Receiver, with_loop, returned, dropped,
  Transport, get_elem?, update, PeerEvent, disconnected, remote_closed, local_closed,
}
use peat_sapient.Mesh.Transport.Peers.{
  emit_event, register_peer, abort_link, abort_record, deregister_peer, disconnect, drop_from_link,
}
use peat_sapient.Mesh.Transport.Loops.{dialled_in, dialled_with, resumed_in, resumed_with}
use peat_sapient.Mesh.Transport.Lifecycle.{
  Stage, dials, serves, lost, taken_down, over, Stage-same, Works-same, abort_link-frame,
  abort_link-receiver, abort_link-own, abort_link-other, get_elem?-end,
}

-- The list of loops has one element.
pub only_loop : (x l : LoopState) (id : ℕ) → get_elem? (x ∷ []) id ≡ some l → (id ≡ 0) × (l ≡ x)
only_loop x l zero e = (refl, ground arith)
only_loop x l (suc id) e = cc

module _ {N : Type 0} (addr peer : String) where
  abbrev without : String → Transport N → Transport N
  without q t = record t { peers = Dict.remove q t.peers }

  aborted-Stage :
      (q : String) (r : PeerRecord) (t : Transport N)
      → Dict.get q t.peers ≡ some r
      → Stage addr peer t
      → Stage addr peer (abort_link r.link (without q t))
  unfolding drop_from_link
  aborted-Stage q r t e (dials a b c) =
      let v = without q t in
      let f = abort_link-frame addr peer r.link v in
      dials (f.0 ∙ a) (abort_link-receiver addr peer r.link v with_loop refl b) (f.1 ∙ c)
  aborted-Stage q r t e (lost l at a b c) =
      let v = without q t in
      let f = abort_link-frame addr peer r.link v in
      lost l at (f.0 ∙ a) (abort_link-receiver addr peer r.link v returned refl b) (f.1 ∙ c)
  aborted-Stage q r t e (taken_down l at a b c) =
      let v = without q t in
      let f = abort_link-frame addr peer r.link v in
      taken_down l at (f.0 ∙ a) (abort_link-receiver addr peer r.link v dropped refl b) (f.1 ∙ c)
  aborted-Stage q r t e (over a b) =
      let v = without q t in
      let f = abort_link-frame addr peer r.link v in
      over (f.0 ∙ a) (abort_link-receiver addr peer r.link v dropped refl b)
  aborted-Stage q r t e (serves l at a b c k) =
      let v = without q t in
      let f = abort_link-frame addr peer r.link v in
      let works = Works-same addr peer l t v refl k.works in
      elim (Bool-cases (r.link == l)) [
        | inl own ↦
            taken_down l at (f.0 ∙ a)
              (abort_link-own addr peer r.link l v ((==_iff r.link l).0 own) b works) (f.1 ∙ c)
        | inr other ↦
            let ne : r.link ≢ l = λ (w : r.link ≡ l). ground arith in
            let away : str_eq q peer ≡ false =
              ground (arith, eq_iff q peer, e, k.recorded, k.linked) in
            let kept = abort_link-other addr peer r.link l v ne b works in
            serves l at (f.0 ∙ a) kept.0 (f.1 ∙ c) (record {
              entry = k.entry;
              recorded = rw (f.2, get-remove peer q t.peers, away) k.recorded;
              linked = k.linked;
              works = kept.1;
            })
      ]

  emit_event-Stage :
      (capacity : ℕ) (event : PeerEvent) (t : Transport N)
      → Stage addr peer t
      → Stage addr peer (emit_event capacity event t)
  unfolding emit_event
  emit_event-Stage capacity event t s =
      Stage-same addr peer t (emit_event capacity event t) refl refl refl refl refl s

  pub disconnect-Stage :
      (capacity : ℕ) (q : String) (now : ℕ) (t : Transport N)
      → Stage addr peer t
      → Stage addr peer (disconnect capacity q now t).1
  unfolding disconnect
  disconnect-Stage capacity q now t s = elim (Option-cases (Dict.get q t.peers)) [
    | inl e ↦ rw (disconnect, e) s
    | inr (r, e) ↦
        let v = abort_link r.link (without q t) in
        rw (disconnect, e)
          (emit_event-Stage capacity (disconnected q local_closed (now - r.connected_at)) v
            (aborted-Stage q r t e s))
  ]

  -- The connect loop has a connection.
  dialled-serves :
      (capacity now : ℕ) (t : Transport N)
      → t.loops ≡ dialling ∷ []
      → t.listener_task ≡ some 0
      → Stage addr peer (dialled_with with_loop peer capacity 0 now t)
  unfolding dialled_with register_peer emit_event
  dialled-serves capacity now t a c = serves (length t.links) now (rw a) refl c (record {
    entry = record { connected_at = now; link = length t.links };
    recorded =
        get-insert peer peer (record { connected_at = now; link = length t.links }) t.peers
        ∙ rw (eq_refl peer);
    linked = refl;
    works = record {
      task = record { peer_id = peer; alive = true; running = true };
      at_link = get_elem?-end t.links (record { peer_id = peer; alive = true; running = true });
      running = refl;
    };
  })

  pub dialled_in-Stage :
      (capacity id now : ℕ) (t : Transport N) (l : LoopState)
      → get_elem? t.loops id ≡ some l
      → Stage addr peer t
      → Stage addr peer (dialled_in (dlmm addr peer) l capacity id now t)
  unfolding dialled_in
  dialled_in-Stage capacity id now t l e (dials a b c) =
      let (first, same) = only_loop dialling l id (rw a at e) in
      rw (first, same, b) (dialled-serves capacity now t a c)
  dialled_in-Stage capacity id now t l e (serves k at a b c r) =
      let (first, same) = only_loop (serving k at) l id (rw a at e) in rw same (serves k at a b c r)
  dialled_in-Stage capacity id now t l e (lost k at a b c) =
      let (first, same) = only_loop (serving k at) l id (rw a at e) in rw same (lost k at a b c)
  dialled_in-Stage capacity id now t l e (taken_down k at a b c) =
      let (first, same) = only_loop (serving k at) l id (rw a at e) in
      rw same (taken_down k at a b c)
  dialled_in-Stage capacity id now t l e (over a b) =
      let (first, same) = only_loop ended l id (rw a at e) in rw same (over a b)

  -- Between two connections the record goes, and the loop dials again.
  deregister-dials :
      (capacity at now : ℕ) (u : Transport N)
      → u.loops ≡ dialling ∷ []
      → u.receiver ≡ with_loop
      → u.listener_task ≡ some 0
      → Stage addr peer (deregister_peer capacity peer at now u)
  unfolding deregister_peer abort_record
  deregister-dials capacity at now u a b c = elim (Option-cases (Dict.get peer u.peers)) [
    | inl e ↦
        rw (deregister_peer, e, abort_record)
          (emit_event-Stage capacity (disconnected peer remote_closed (now - at)) (without peer u)
            (dials a b c))
    | inr (r, e) ↦
        rw (deregister_peer, e, abort_record)
          (emit_event-Stage capacity (disconnected peer remote_closed (now - at))
            (abort_link r.link (without peer u)) (aborted-Stage peer r u e (dials a b c)))
  ]

  -- The task of the connection is over: with the receiver back, or without.
  resumed-lost :
      (capacity now at : ℕ) (t : Transport N)
      → (at' link : ℕ) → t.loops ≡ serving link at' ∷ []
      → t.listener_task ≡ some 0
      → Stage addr peer (resumed_with returned peer capacity 0 at now t)
  unfolding resumed_with
  resumed-lost capacity now at t at' link a c =
      elim (Bool-cases (is_some (Dict.get peer t.peers))) [
        | inl e ↦
            rw (resumed_with, e)
              (deregister-dials capacity at now
                (record t { loops = update 0 (λ _. dialling) t.loops; receiver = with_loop }) (rw a)
                refl c)
        | inr e ↦ rw (resumed_with, e) (over (rw a) refl)
      ]

  pub resumed_in-Stage :
      (capacity id now : ℕ) (t : Transport N) (l : LoopState)
      → get_elem? t.loops id ≡ some l
      → Stage addr peer t
      → Stage addr peer (resumed_in (dlmm addr peer) l capacity id now t)
  unfolding resumed_in resumed_with
  resumed_in-Stage capacity id now t l e (dials a b c) =
      let (first, same) = only_loop dialling l id (rw a at e) in rw same (dials a b c)
  resumed_in-Stage capacity id now t l e (serves k at a b c r) =
      let (first, same) = only_loop (serving k at) l id (rw a at e) in
      rw same (
        subst (λ (w : Receiver). Stage addr peer (resumed_with w peer capacity id at now t)) (sym b)
          (serves k at a b c r))
  resumed_in-Stage capacity id now t l e (lost k at a b c) =
      let (first, same) = only_loop (serving k at) l id (rw a at e) in
      rw (same, first, b) (resumed-lost capacity now at t at k a c)
  resumed_in-Stage capacity id now t l e (taken_down k at a b c) =
      let (first, same) = only_loop (serving k at) l id (rw a at e) in
      rw (same, first, b) (over (rw a) refl)
  resumed_in-Stage capacity id now t l e (over a b) =
      let (first, same) = only_loop ended l id (rw a at e) in rw same (over a b)
