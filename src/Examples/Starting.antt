-- ===== src/Examples/Starting.antt =====
-- The start of the bridge program.
use peat_sapient.Base.{ℕ, ◌≡◌, ◌↔◌, none, some, List, [], ◌∷◌, arith}
use peat_sapient.Connection.{done, is_done}
use peat_sapient.Mesh.Transport.{dlmm}
use peat_sapient.Program.Config.{Cli, default_config, apply_flags}
use peat_sapient.Program.Config.Layers.{resolve-apply_flags}
use peat_sapient.Program.Peer.{Parsers, parse_peer}
use peat_sapient.Program.Peer.Printed.{printed, IsPeer, parse_peer-printed}
use peat_sapient.Program.Start.{resolve_sapient_role}
use peat_sapient.Program.Main.{main}
use peat_sapient.Program.Main.Stages.{Staged, stops}
use peat_sapient.Program.Main.Order.{main-Staged}
use peat_sapient.Examples.Setup.{lenient}

abbrev key_bytes : List ℕ
key_bytes =
    0 ∷ 1 ∷ 2 ∷ 3 ∷ 4 ∷ 5 ∷ 6 ∷ 7 ∷ 0 ∷ 1 ∷ 2 ∷ 3 ∷ 4 ∷ 5 ∷ 6 ∷ 7 ∷ 0 ∷ 1 ∷ 2 ∷ 3 ∷ 4 ∷ 5 ∷ 6 ∷ 7
    ∷ 0 ∷ 1 ∷ 2 ∷ 3 ∷ 4 ∷ 5 ∷ 6 ∷ 7 ∷ []

abbrev parsers : Parsers
parsers = record {
  hex_decode = λ s. done key_bytes;
  socket_addr = λ s. done tt;
  debug = λ s. s;
  decimal = λ n. "n";
}

parse_peer-printed_example :
    (parse_peer parsers (printed "cafe" "10.0.0.2:9001") ≡ done ("cafe", "10.0.0.2:9001" ∷ []))
    ↔ IsPeer parsers "cafe" "10.0.0.2:9001"
parse_peer-printed_example = parse_peer-printed parsers "cafe" "10.0.0.2:9001" (omega arith)

abbrev flags : Cli
flags = record {
  config = none;
  name = none;
  bind = none;
  peer = [];
  sapient_listen = some "0.0.0.0:5000";
  sapient_remote = some "10.0.0.1:12000";
  sapient_peer_id = none;
  sapient_tls = none;
  sapient_cert = none;
  sapient_key = none;
  sapient_ca_cert = none;
  sapient_server_name = none;
  storage = none;
  tak_server = none;
  tak_tls = none;
  tak_cert = none;
  tak_key = none;
  tak_ca_cert = none;
  tak_callsign = none;
  tak_server_name = none;
  tak_peer_id = "tak-server-0";
  tak_max_message_bytes = none;
  tak_protocol = none;
}

resolve-apply_flags_example :
    resolve_sapient_role (λ s. s) (apply_flags flags default_config).sapient
    ≡ done (dlmm "10.0.0.1:12000" "hldmm-0")
unfolding default_config
resolve-apply_flags_example = resolve-apply_flags (λ s. s) flags default_config

main-Staged_example :
    let (calls, result) =
      main lenient parsers (λ call. done tt) "key" (apply_flags flags default_config) in
    Staged 0 11 calls × (stops calls ≡ is_done result)
main-Staged_example = main-Staged parsers (λ call. done tt) "key" (apply_flags flags default_config)
