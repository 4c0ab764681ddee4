-- ===== src/Mesh/Transport/Tracking.antt =====
-- How each operation of peat-mesh-sapient/src/transport.rs acts on the records of the peers and on
-- the channels of the subscribers.
use peat_sapient.Base.{
  ℕ, ◌-◌, String, ◌≡◌, refl, ap, ◌∙◌, Bool, true, false, Option, none, some, List, map, arith,
  str_eq, if◌then◌else◌, is_some, Bool-cases, Option-cases, inl, inr,
}
use peat_sapient.Base.Dict
use peat_sapient.Base.Dict.{Dict, get-insert, get-remove}
use peat_sapient.Error.{Result, ok, err}
use peat_sapient.Mesh.Transport.{
  SapientRole, hldmm, dlmm, DisconnectReason, remote_closed, local_closed, PeerEvent, connected,
  disconnected, Subscriber, PeerRecord, LoopState, binding, accepting, dialling, ended, serving,
  Receiver, held, with_loop, returned, dropped, with_link, Transport,
}
use peat_sapient.Mesh.Transport.Peers.{
  try_send, emit_event, register_peer, abort_link, abort_record, deregister_peer, disconnect,
}
use peat_sapient.Mesh.Transport.Loops.{
  start, start_as, start_dlmm, spawn, send_outbound, send_as, push, put, bound_in, accepted_in,
  dialled_in, dialled_with, close_link, write, write_head, resumed_in, resumed_with,
}

-- The set of connected peers, as the events tell it: the abstract transport.
abbrev pub Peers : Type 0
Peers = String → Bool

abbrev pub track : PeerEvent → Peers → Peers
track (connected q at) f p = if str_eq q p then true else f p
track (disconnected q reason duration) f p = if str_eq q p then false else f p

abbrev pub track_if : Option PeerEvent → Peers → Peers
track_if none f = f
track_if (some event) f = track event f

abbrev pub send_if : ℕ → Option PeerEvent → List Subscriber → List Subscriber
send_if capacity none senders = senders
send_if capacity (some event) senders = map (try_send capacity event) senders

module _ {N : Type 0} where
  abbrev pub is_connected : Transport N → Peers
  is_connected t p = is_some (Dict.get p t.peers)

is_some-insert :
    (p q : String) (r : PeerRecord) (peers : Dict PeerRecord)
    → is_some (Dict.get q (Dict.insert p r peers))
      ≡ (if str_eq p q then true else is_some (Dict.get q peers))
is_some-insert p q r peers = rw (get-insert q p r peers) (ground arith)

is_some-remove :
    (p q : String) (peers : Dict PeerRecord)
    → is_some (Dict.get q (Dict.remove p peers))
      ≡ (if str_eq p q then false else is_some (Dict.get q peers))
is_some-remove p q peers = rw (get-remove q p peers) (ground arith)

module _ {N : Type 0} (capacity : ℕ) where
  -- From `t` to `u` at most one event happened: it was sent to every subscriber, and it tells the
  -- change of the records.
  pub record Change (t u : Transport N) : Type 0 where
    pub event : Option PeerEvent
    pub announced : u.event_senders ≡ send_if capacity event t.event_senders
    pub recorded : (p : String) → is_connected u p ≡ track_if event (is_connected t) p

  pub Change-same :
      (t u : Transport N) → u.event_senders ≡ t.event_senders → u.peers ≡ t.peers → Change t u
  Change-same t u s p = record { event = none; announced = s; recorded = λ q. rw p }

  register_peer-Change :
      (t u : Transport N) (peer_id : String) (at link : ℕ)
      → u.event_senders ≡ t.event_senders
      → u.peers ≡ t.peers
      → Change t (register_peer capacity peer_id at link u)
  unfolding register_peer emit_event
  register_peer-Change t u peer_id at link s p = record {
    event = some (connected peer_id at);
    announced = rw s;
    recorded =
        λ q. rw p (is_some-insert peer_id q (record { connected_at = at; link = link }) t.peers);
  }

  abort_link-peers :
      (link : ℕ) (t : Transport N)
      → ((abort_link link t).peers ≡ t.peers)
        × ((abort_link link t).event_senders ≡ t.event_senders)
  unfolding abort_link
  abort_link-peers link t = ground arith

  removed-Change :
      (t v : Transport N) (p : String) (reason : DisconnectReason) (d : ℕ)
      → v.event_senders ≡ t.event_senders
      → v.peers ≡ Dict.remove p t.peers
      → Change t (emit_event capacity (disconnected p reason d) v)
  unfolding emit_event
  removed-Change t v p reason d s e = record {
    event = some (disconnected p reason d);
    announced = rw s;
    recorded = λ q. rw e (is_some-remove p q t.peers);
  }

  pub disconnect-Change :
      (p : String) (now : ℕ) (t : Transport N) → Change t (disconnect capacity p now t).1
  unfolding disconnect emit_event
  disconnect-Change p now t = elim (Option-cases (Dict.get p t.peers)) [
    | inl e ↦ rw (disconnect, e) (Change-same t t refl refl)
    | inr (r, e) ↦
        let without = record t { peers = Dict.remove p t.peers } in
        let kept = abort_link-peers r.link without in
        rw (disconnect, e)
          (removed-Change t (abort_link r.link without) p local_closed (now - r.connected_at) kept.1
            kept.0)
  ]

  deregister_peer-Change :
      (t u : Transport N) (p : String) (at now : ℕ)
      → u.event_senders ≡ t.event_senders
      → u.peers ≡ t.peers
      → Change t (deregister_peer capacity p at now u)
  unfolding deregister_peer abort_record
  deregister_peer-Change t u p at now s same = elim (Option-cases (Dict.get p u.peers)) [
    | inl e ↦
        let without = record u { peers = Dict.remove p u.peers } in
        rw (deregister_peer, e, abort_record)
          (removed-Change t without p remote_closed (now - at) s (rw same))
    | inr (r, e) ↦
        let without = record u { peers = Dict.remove p u.peers } in
        let kept = abort_link-peers r.link without in
        rw (deregister_peer, e, abort_record)
          (removed-Change t (abort_link r.link without) p remote_closed (now - at) (kept.1 ∙ s)
            (kept.0 ∙ ap (Dict.remove p) same))
  ]

  pub start-Change : (now : ℕ) (t : Transport N) → Change t (start now t).1
  unfolding start start_as start_dlmm spawn
  start-Change now t = Change-same t (start now t).1 (ground arith) (ground arith)

  pub send_outbound-Change : (bytes : List ℕ) (t : Transport N) → Change t (send_outbound bytes t).1
  unfolding send_outbound send_as push put
  send_outbound-Change bytes t =
      Change-same t (send_outbound bytes t).1 (ground arith) (ground arith)

  pub write-Change : (link : ℕ) (success : Bool) (t : Transport N) → Change t (write link success t)
  unfolding write write_head close_link
  write-Change link success t = Change-same t (write link success t) (ground arith) (ground arith)

  pub bound_in-Change :
      (l : LoopState) (id : ℕ) (b : Bool) (t : Transport N) → Change t (bound_in l id b t)
  unfolding bound_in
  bound_in-Change l id b t = Change-same t (bound_in l id b t) (ground arith) (ground arith)

  pub accepted_in-Change :
      (l : LoopState) (p : Result String) (now : ℕ) (t : Transport N)
      → Change t (accepted_in l capacity p now t)
  unfolding accepted_in
  accepted_in-Change accepting (ok addr) now t = register_peer-Change t _ addr now _ refl refl
  accepted_in-Change accepting (err e) now t = Change-same t t refl refl
  accepted_in-Change binding p now t = Change-same t t refl refl
  accepted_in-Change dialling p now t = Change-same t t refl refl
  accepted_in-Change ended p now t = Change-same t t refl refl
  accepted_in-Change (serving k at) p now t = Change-same t t refl refl

  dialled_with-Change :
      (r : Receiver) (p : String) (id now : ℕ) (t : Transport N)
      → Change t (dialled_with r p capacity id now t)
  unfolding dialled_with
  dialled_with-Change with_loop p id now t = register_peer-Change t _ p now _ refl refl
  dialled_with-Change held p id now t = Change-same t t refl refl
  dialled_with-Change returned p id now t = Change-same t t refl refl
  dialled_with-Change dropped p id now t = Change-same t t refl refl
  dialled_with-Change (with_link l) p id now t = Change-same t t refl refl

  pub dialled_in-Change :
      (role : SapientRole) (l : LoopState) (id now : ℕ) (t : Transport N)
      → Change t (dialled_in role l capacity id now t)
  unfolding dialled_in
  dialled_in-Change (dlmm a p) dialling id now t = dialled_with-Change t.receiver p id now t
  dialled_in-Change (hldmm a) l id now t = Change-same t t refl refl
  dialled_in-Change (dlmm a p) binding id now t = Change-same t t refl refl
  dialled_in-Change (dlmm a p) accepting id now t = Change-same t t refl refl
  dialled_in-Change (dlmm a p) ended id now t = Change-same t t refl refl
  dialled_in-Change (dlmm a p) (serving k at) id now t = Change-same t t refl refl

  resumed_with-Change :
      (r : Receiver) (p : String) (id at now : ℕ) (t : Transport N)
      → Change t (resumed_with r p capacity id at now t)
  unfolding resumed_with
  resumed_with-Change returned p id at now t = elim (Bool-cases (is_some (Dict.get p t.peers))) [
    | inl e ↦ rw (resumed_with, e) (deregister_peer-Change t _ p at now refl refl)
    | inr e ↦ rw (resumed_with, e) (Change-same t _ refl refl)
  ]
  resumed_with-Change dropped p id at now t = Change-same t _ refl refl
  resumed_with-Change held p id at now t = Change-same t t refl refl
  resumed_with-Change with_loop p id at now t = Change-same t t refl refl
  resumed_with-Change (with_link l) p id at now t = Change-same t t refl refl

  pub resumed_in-Change :
      (role : SapientRole) (l : LoopState) (id now : ℕ) (t : Transport N)
      → Change t (resumed_in role l capacity id now t)
  unfolding resumed_in
  resumed_in-Change (dlmm a p) (serving k at) id now t =
      resumed_with-Change t.receiver p id at now t
  resumed_in-Change (hldmm a) l id now t = Change-same t t refl refl
  resumed_in-Change (dlmm a p) binding id now t = Change-same t t refl refl
  resumed_in-Change (dlmm a p) accepting id now t = Change-same t t refl refl
  resumed_in-Change (dlmm a p) dialling id now t = Change-same t t refl refl
  resumed_in-Change (dlmm a p) ended id now t = Change-same t t refl refl
