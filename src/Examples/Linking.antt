-- ===== src/Examples/Linking.antt =====
-- The transport and its connections.
use peat_sapient.Base.{
  ℕ, zero, suc, ◌+◌, ◌≤◌, ◌<◌, String, ◌≡◌, ◌⊎◌, refl, true, false, none, some, List, [], ◌∷◌, ◌++◌,
  map, arith, length,
}
use peat_sapient.Base.Dict
use peat_sapient.Error.{ok}
use peat_sapient.Codec.{Prost}
use peat_sapient.Proto.{SapientMessage}
use peat_sapient.Bridge.Route.{route_content}
use peat_sapient.Connection.{
  Outcome, done, failed, connected, default_reconnect, connect_with_retry,
}
use peat_sapient.Connection.Backoff.{IsFailed, connect_with_retry-returns}
use peat_sapient.Connection.Tls.{
  SapientTlsConfig, client, build_client, load_roots, add_roots, map_err,
}
use peat_sapient.Connection.Tls.Roles.{Serves, client_of, built-Serves}
use peat_sapient.Mesh.Translator.{outbound_message}
use peat_sapient.Mesh.Receive.{Node, receive}
use peat_sapient.Mesh.Receive.Filter.{subscribed_for, receive-published}
use peat_sapient.Mesh.Transport.{SapientRole, dlmm, new, ended}
use peat_sapient.Mesh.Transport.Peers.{stop, subscribe_peer_events}
use peat_sapient.Mesh.Transport.Loops.{
  start, send_outbound, write, dialled_in, dialled_with, resumed_in, panicked, closed,
  outbound_channel_depth,
}
use peat_sapient.Mesh.Transport.Run.{
  Event, started, stopped, dialled, sending, wrote, resumed, took, run,
}
use peat_sapient.Mesh.Transport.Outbound.{is_dropped}
use peat_sapient.Mesh.Transport.Order.{sent_along, writes-ordered}
use peat_sapient.Mesh.Transport.Tracking.{is_connected}
use peat_sapient.Mesh.Transport.Follow.{replay, nobody}
use peat_sapient.Mesh.Transport.Refinement.{told, told-refines}
use peat_sapient.Mesh.Transport.Ending.{stopped-over}
use peat_sapient.Examples.Setup.{lenient, numbers, texts, display}

-- The third dial succeeds.
abbrev dial : ℕ → Outcome ℕ
dial zero = failed "refused"
dial (suc zero) = failed "refused"
dial (suc (suc i)) = done 7

first_two : (j : ℕ) → j < 2 → IsFailed (dial j)
first_two zero h = tt
first_two (suc zero) h = tt
first_two (suc (suc j)) h = absurd (omega arith)

connect_with_retry-returns_example :
    connect_with_retry dial default_reconnect 5 ≡ connected 7 (1_000_000_000 ∷ 2_000_000_000 ∷ [])
unfolding default_reconnect
connect_with_retry-returns_example =
    connect_with_retry-returns dial default_reconnect 2 5 7 (omega arith) first_two refl
      (omega arith)

abbrev client_tls : SapientTlsConfig lenient
client_tls = record { client_config = some ("ca.pem" ∷ []); server_config = none }

client_is_built : client lenient "ca.pem" none none ≡ ok client_tls
unfolding client build_client load_roots add_roots map_err
client_is_built = refl

abbrev greeting : List String → String → ℕ → Outcome ℕ
greeting config name stream = done stream

abbrev taking : String → ℕ → Outcome ℕ
taking config stream = done stream

built-Serves_example :
    Serves lenient "hldmm" "hldmm" 3 "10.0.0.9:4000"
      (done 3)
      (done (3, "10.0.0.9:4000"))
      greeting
      taking
      (client_of "ca.pem" none none)
      client_tls
built-Serves_example =
    built-Serves lenient "hldmm" "hldmm" 3 "10.0.0.9:4000" (done 3) (done (3, "10.0.0.9:4000"))
      greeting taking (client_of "ca.pem" none none) client_tls client_is_built refl

abbrev report : SapientMessage numbers
report = outbound_message texts (some "radar") "t1" 52 4 []

abbrev the_report : Prost (SapientMessage numbers)
the_report = record { encode_to_vec = λ m. 1 ∷ []; decode = λ bytes. ok report }

abbrev empty_node : Node numbers String
empty_node = record { positions = []; published = [] }

receive-published_example :
    (receive texts the_report report empty_node).published
    ≡ []
      ++ subscribed_for texts
          (route_content texts display 1 1 "radar" report.content (Dict.get "radar" []) none).1
unfolding outbound_message
receive-published_example = receive-published texts the_report display 1 1 report empty_node refl

abbrev hldmm_peer : SapientRole
hldmm_peer = dlmm "10.0.0.1:12000" "hldmm-0"

-- A connection that is lost with the second message, and one dialled in its place.
abbrev outage : List (Event numbers)
outage =
    started 0
    ∷ sending (5 ∷ [])
    ∷ dialled 0 1
    ∷ wrote 0 true
    ∷ sending (6 ∷ [])
    ∷ sending (7 ∷ [])
    ∷ wrote 0 false
    ∷ resumed 0 4
    ∷ took 0
    ∷ dialled 0 9
    ∷ []

-- A stop after the outage, with a message in the channel.
abbrev outage_stop : List (Event numbers)
outage_stop = outage ++ stopped ∷ []

writes-ordered_example :
    let u = run texts the_report 16 outage_stop (new hldmm_peer empty_node) in
    (lost : List (List ℕ)) × (map (λ w. w.0) u.writes ++ (u.outbound ++ lost)
      ≡ sent_along texts the_report 16 outage_stop (new hldmm_peer empty_node))
    × (((is_dropped u.receiver ≡ false) × (lost ≡ []))
        ⊎ ((is_dropped u.receiver ≡ true) × (u.outbound ≡ [])))
    × (length u.outbound + length lost ≤ outbound_channel_depth)
writes-ordered_example = writes-ordered texts the_report 16 hldmm_peer empty_node outage_stop

-- The schedule does what it says.
outage_writes :
    (run texts the_report 16 outage (new hldmm_peer empty_node)).writes
    ≡ (5 ∷ [], true) ∷ (6 ∷ [], false) ∷ []
unfolding run new start Dict.get Dict.insert Dict.remove write send_outbound dialled_in resumed_in
    dialled_with
outage_writes = refl

told-refines_example :
    let u = run texts the_report 16 outage (subscribe_peer_events (new hldmm_peer empty_node)) in
    replay (told texts the_report 16 u) nobody "hldmm-0" ≡ is_connected u "hldmm-0"
told-refines_example =
    told-refines texts the_report 16 hldmm_peer empty_node outage "hldmm-0" (omega arith)
      (omega arith)

stopped-over_example :
    let t = run texts the_report 16 outage (start 0 (new hldmm_peer empty_node)).1 in
    let u = run texts the_report 16 (started 20 ∷ []) (stop t) in
    ((start 21 u).0 ≡ panicked)
    × ((send_outbound (8 ∷ []) u).0 ≡ closed)
    × (u.loops ≡ ended ∷ [])
    × (u.writes ≡ t.writes)
stopped-over_example =
    stopped-over texts the_report 16 "10.0.0.1:12000" "hldmm-0" empty_node outage (started 20 ∷ [])
      0 21 (8 ∷ [])
