-- ===== src/Mesh/Transport/Peers.antt =====
-- The bookkeeping of peers and their events in peat-mesh-sapient/src/transport.rs. `capacity` is the
-- constant `PEER_EVENT_CHANNEL_CAPACITY` of peat-mesh; `now` is the clock.
use peat_sapient.Base.{
  ℕ, ◌-◌, String, Bool, true, false, Option, none, some, List, [], ◌∷◌, ◌++◌, map, ltb, ◌==◌,
  if◌then◌else◌, is_some, length,
}
use peat_sapient.Base.Dict
use peat_sapient.Base.Dict.{Dict}
use peat_sapient.Mesh.Transport.{
  remote_closed, local_closed, PeerEvent, connected, disconnected, Subscriber, PeerRecord, ended,
  Receiver, held, with_loop, returned, dropped, with_link, Transport, get_elem?, update, buffered,
}

-- `try_send`: nothing happens when the channel is full or its receiver is gone.
unfoldable pub try_send : ℕ → PeerEvent → Subscriber → Subscriber
try_send capacity event s =
    if s.listening
    then (if ltb (length s.queue) capacity then record s { queue = s.queue ++ event ∷ [] } else s)
    else s

unfoldable pub drop_from_link : ℕ → Receiver → Receiver
drop_from_link link held = held
drop_from_link link with_loop = with_loop
drop_from_link link returned = returned
drop_from_link link dropped = dropped
drop_from_link link (with_link l) = if l == link then dropped else with_link l

unfoldable pub drop_from_loop : Receiver → Receiver
drop_from_loop held = held
drop_from_loop with_loop = dropped
drop_from_loop returned = dropped
drop_from_loop dropped = dropped
drop_from_loop (with_link l) = with_link l

-- `PeerRecordHandle`, with the flag that it shares.
pub record PeerRecordHandle : Type 0 where
  pub peer_id : String
  pub connected_at : ℕ
  pub alive : ℕ

-- `peat_mesh`'s `Result` where only `PeerNotFound` can be returned.
pub data Answer (A : Type 0) : Type 0 where
  answer : A → Answer A
  peer_not_found : String → Answer A

pub data ConnectionState : Type 0 where
  healthy dead : ConnectionState

module _ {N : Type 0} where
  unfoldable pub emit_event : ℕ → PeerEvent → Transport N → Transport N
  emit_event capacity event t = record t {
    event_senders = map (try_send capacity event) t.event_senders;
  }

  unfoldable pub register_peer : ℕ → String → ℕ → ℕ → Transport N → Transport N
  unfolding emit_event
  register_peer capacity peer_id connected_at link t =
      emit_event capacity (connected peer_id connected_at) (record t {
        peers = Dict.insert peer_id (record { connected_at = connected_at; link = link }) t.peers;
      })

  -- `recv_task.abort()`: a task that has ended is left as it is, and a flag `alive` is not touched.
  unfoldable pub abort_link : ℕ → Transport N → Transport N
  unfolding drop_from_link buffered
  abort_link link t = elim (get_elem? t.links link) [
    | none ↦ t
    | some l ↦
        if l.running
        then record t {
          links = update link (λ k. record k { running = false }) t.links;
          receiver = drop_from_link link t.receiver;
          outbound = buffered (drop_from_link link t.receiver) t.outbound;
        }
        else t
  ]

  unfoldable pub abort_record : Option PeerRecord → Transport N → Transport N
  unfolding abort_link
  abort_record none t = t
  abort_record (some r) t = abort_link r.link t

  unfoldable pub deregister_peer : ℕ → String → ℕ → ℕ → Transport N → Transport N
  unfolding emit_event abort_record
  deregister_peer capacity peer_id connected_at now t =
      emit_event capacity (disconnected peer_id remote_closed (now - connected_at))
        (abort_record (Dict.get peer_id t.peers) (record t { peers = Dict.remove peer_id t.peers }))

  unfoldable pub disconnect : ℕ → String → ℕ → Transport N → Answer (Unit {0}) × Transport N
  unfolding emit_event abort_link
  disconnect capacity peer_id now t = elim (Dict.get peer_id t.peers) [
    | none ↦ (peer_not_found peer_id, t)
    | some r ↦ (
      answer tt,
      emit_event capacity (disconnected peer_id local_closed (now - r.connected_at))
          (abort_link r.link (record t { peers = Dict.remove peer_id t.peers })),
    )
  ]

  unfoldable pub abort_loop : Option ℕ → Transport N → Transport N
  unfolding drop_from_loop buffered
  abort_loop none t = t
  abort_loop (some id) t = record t {
    loops = update id (λ _. ended) t.loops;
    receiver = drop_from_loop t.receiver;
    outbound = buffered (drop_from_loop t.receiver) t.outbound;
  }

  -- The records that `peers.drain()` hands out.
  unfoldable pub abort_all : Dict PeerRecord → Transport N → Transport N
  unfolding abort_link
  abort_all [] t = t
  abort_all ((peer_id, r) ∷ rest) t = abort_all rest (abort_link r.link t)

  unfoldable pub stop : Transport N → Transport N
  unfolding abort_loop abort_all
  stop t =
      let aborted = abort_loop t.listener_task (record t { listener_task = none }) in
      record (abort_all t.peers (record aborted { peers = [] })) { started = none }

  unfoldable pub get_connection : String → Transport N → Option PeerRecordHandle
  get_connection peer_id t = elim (Dict.get peer_id t.peers) [
    | none ↦ none
    | some r ↦ some (record { peer_id = peer_id; connected_at = r.connected_at; alive = r.link })
  ]

  unfoldable pub is_alive : PeerRecordHandle → Transport N → Bool
  is_alive handle t = elim (get_elem? t.links handle.alive) [ none ↦ false | some l ↦ l.alive ]

  unfoldable pub connect : String → Transport N → Answer PeerRecordHandle
  unfolding get_connection
  connect peer_id t = elim (get_connection peer_id t) [
    | none ↦ peer_not_found peer_id
    | some handle ↦ answer handle
  ]

  unfoldable pub peer_count : Transport N → ℕ
  peer_count t = length t.peers

  unfoldable pub connected_peers : Transport N → List String
  connected_peers t = map (λ e. e.0) t.peers

  unfoldable pub subscribe_peer_events : Transport N → Transport N
  subscribe_peer_events t = record t {
    event_senders = t.event_senders ++ record { received = []; queue = []; listening = true } ∷ [];
  }

  unfoldable pub get_peer_health : String → Transport N → Option ConnectionState
  unfolding get_connection is_alive
  get_peer_health peer_id t = elim (get_connection peer_id t) [
    | none ↦ none
    | some handle ↦ some (if is_alive handle t then healthy else dead)
  ]

  unfoldable pub is_available : Transport N → Bool
  is_available t = is_some t.started
