-- ===== src/Mesh/Transport/Loops.antt =====
-- The tasks of peat-mesh-sapient/src/transport.rs, one step at a time: the accept and connect loops,
-- the loops of a connection, `start` and the outbound sink. What the network answers is an argument.
use peat_sapient.Base.{
  ℕ, String, Bool, true, false, ◌&&◌, none, some, List, [], ◌∷◌, ◌++◌, ltb, ◌==◌, if◌then◌else◌,
  is_some, length,
}
use peat_sapient.Base.Dict
use peat_sapient.Base.Dict.{Dict}
use peat_sapient.Error.{Result, ok, err}
use peat_sapient.Mesh.Transport.{
  SapientRole, hldmm, dlmm, LoopState, binding, accepting, dialling, ended, serving, Receiver, held,
  with_loop, returned, dropped, with_link, Transport, get_elem?, update,
}
use peat_sapient.Mesh.Transport.Peers.{register_peer, deregister_peer}

abbrev pub outbound_channel_depth : ℕ
outbound_channel_depth = 64

-- What `send_outbound` comes to: it returned without a channel, put the message into the channel,
-- waits for room in it, or failed because the channel is closed.
pub data Sent : Type 0 where
  discarded accepted waiting closed : Sent

pub data Started : Type 0 where
  started_ok : Started
  panicked : Started

unfoldable pub return_from_link : ℕ → Receiver → Receiver
return_from_link link held = held
return_from_link link with_loop = with_loop
return_from_link link returned = returned
return_from_link link dropped = dropped
return_from_link link (with_link l) = if l == link then returned else with_link l

abbrev pub owns : ℕ → Receiver → Bool
owns link held = false
owns link with_loop = false
owns link returned = false
owns link dropped = false
owns link (with_link l) = l == link

module _ {N : Type 0} where
  unfoldable pub spawn : LoopState → ℕ → Transport N → Transport N
  spawn loop now t = record t {
    listener_task = some (length t.loops);
    loops = t.loops ++ loop ∷ [];
    started = some now;
  }

  -- `outbound_rx.lock().await.take().expect(…)`.
  unfoldable pub start_dlmm : Receiver → ℕ → Transport N → Started × Transport N
  unfolding spawn
  start_dlmm held now t = (started_ok, spawn dialling now (record t { receiver = with_loop }))
  start_dlmm with_loop now t = (panicked, t)
  start_dlmm returned now t = (panicked, t)
  start_dlmm dropped now t = (panicked, t)
  start_dlmm (with_link l) now t = (panicked, t)

  unfoldable pub start_as : SapientRole → ℕ → Transport N → Started × Transport N
  unfolding spawn start_dlmm
  start_as (hldmm listen_addr) now t = (started_ok, spawn binding now t)
  start_as (dlmm remote_addr peer_node_id) now t = start_dlmm t.receiver now t

  unfoldable pub start : ℕ → Transport N → Started × Transport N
  unfolding start_as
  start now t = start_as t.role now t

  unfoldable pub put : List ℕ → Transport N → Sent × Transport N
  put bytes t =
      if ltb (length t.outbound) outbound_channel_depth
      then (accepted, record t { outbound = t.outbound ++ bytes ∷ [] })
      else (waiting, t)

  -- The sending half of a channel whose receiver is `r`.
  unfoldable pub push : Receiver → List ℕ → Transport N → Sent × Transport N
  unfolding put
  push dropped bytes t = (closed, t)
  push held bytes t = put bytes t
  push with_loop bytes t = put bytes t
  push returned bytes t = put bytes t
  push (with_link l) bytes t = put bytes t

  unfoldable pub send_as : SapientRole → List ℕ → Transport N → Sent × Transport N
  unfolding push
  send_as (hldmm listen_addr) bytes t = (discarded, t)
  send_as (dlmm remote_addr peer_node_id) bytes t = push t.receiver bytes t

  -- `outbound_sink().send_outbound(bytes)`.
  unfoldable pub send_outbound : List ℕ → Transport N → Sent × Transport N
  unfolding send_as
  send_outbound bytes t = send_as t.role bytes t

  abbrev set_loop : ℕ → LoopState → Transport N → Transport N
  set_loop id loop t = record t { loops = update id (λ _. loop) t.loops }

  -- A spawned task of a connection, with its flag.
  abbrev new_link : String → Transport N → Transport N
  new_link peer_id t = record t {
    links = t.links ++ record { peer_id = peer_id; alive = true; running = true } ∷ [];
  }

  -- `TcpListener::bind`: the accept loop runs or ends.
  unfoldable pub bound_in : LoopState → ℕ → Bool → Transport N → Transport N
  bound_in binding id success t = set_loop id (if success then accepting else ended) t
  bound_in _ id success t = t

  unfoldable pub accepted_in : LoopState → ℕ → Result String → ℕ → Transport N → Transport N
  unfolding register_peer
  accepted_in accepting capacity (ok addr) now t =
      register_peer capacity addr now (length t.links) (new_link addr t)
  accepted_in accepting capacity (err e) now t = t
  accepted_in _ capacity peer now t = t

  -- `connect_with_retry` returned a connection: the receiver, which a loop that dials has, moves to
  -- the connection's task.
  unfoldable pub dialled_with : Receiver → String → ℕ → ℕ → ℕ → Transport N → Transport N
  unfolding register_peer
  dialled_with with_loop peer_node_id capacity id now t =
      let link = length t.links in
      register_peer capacity peer_node_id now link (
        set_loop id (serving link now)
          (new_link peer_node_id (record t { receiver = with_link link })))
  dialled_with _ peer_node_id capacity id now t = t

  unfoldable pub dialled_in : SapientRole → LoopState → ℕ → ℕ → ℕ → Transport N → Transport N
  unfolding dialled_with
  dialled_in (dlmm remote_addr peer_node_id) dialling capacity id now t =
      dialled_with t.receiver peer_node_id capacity id now t
  dialled_in _ _ capacity id now t = t

  -- The end of a connection's loop: `alive.store(false)`, and the receiver goes back.
  unfoldable pub close_link : ℕ → Transport N → Transport N
  unfolding return_from_link
  close_link link t = record t {
    links = update link (λ k. record k { alive = false; running = false }) t.links;
    receiver = return_from_link link t.receiver;
  }

  abbrev pub is_running : ℕ → Transport N → Bool
  is_running link t = elim (get_elem? t.links link) [ none ↦ false | some l ↦ l.running ]

  -- `outbound_rx.recv()` and the write to the connection, which succeeds or not.
  unfoldable pub write_head : List (List ℕ) → ℕ → Bool → Transport N → Transport N
  unfolding close_link
  write_head [] link success t = t
  write_head (raw ∷ rest) link success t =
      let written = record t { outbound = rest; writes = t.writes ++ (raw, success) ∷ [] } in
      if success then written else close_link link written

  unfoldable pub write : ℕ → Bool → Transport N → Transport N
  unfolding write_head
  write link success t =
      if owns link t.receiver && is_running link t then write_head t.outbound link success t else t

  -- `return_rx.await` returned the receiver, or the task was aborted and it is gone.
  unfoldable pub resumed_with : Receiver → String → ℕ → ℕ → ℕ → ℕ → Transport N → Transport N
  unfolding deregister_peer
  resumed_with returned peer_node_id capacity id connected_at now t =
      if is_some (Dict.get peer_node_id t.peers)
      then deregister_peer capacity peer_node_id connected_at now
          (set_loop id dialling (record t { receiver = with_loop }))
      else set_loop id ended (record t { receiver = dropped; outbound = [] })
  resumed_with dropped peer_node_id capacity id connected_at now t = set_loop id ended t
  resumed_with _ peer_node_id capacity id connected_at now t = t

  unfoldable pub resumed_in : SapientRole → LoopState → ℕ → ℕ → ℕ → Transport N → Transport N
  unfolding resumed_with
  resumed_in (dlmm remote_addr peer_node_id) (serving link connected_at) capacity id now t =
      resumed_with t.receiver peer_node_id capacity id connected_at now t
  resumed_in _ _ capacity id now t = t
