-- ===== src/Program/Main.antt =====
-- The body of `main` in peat-sapient-bridge/src/main.rs, from the loaded configuration on. The random
-- key of `base64_default_key` is a parameter.
pub mod Stages
pub mod Order
use peat_sapient.Base.{
  String, Bool, true, false, Option, none, some, [], ◌∷◌, if◌then◌else◌, unwrap_or,
}
use peat_sapient.Connection.{Outcome, done}
use peat_sapient.Connection.Tls.{Rustls, SapientTlsConfig}
use peat_sapient.Program.Config.{Config, SapientConfig, TakConfig}
use peat_sapient.Program.Peer.{Parsers}
use peat_sapient.Program.Start.{
  Call, start_sync, register_sapient, register_tak, wait_ctrl_c, stop_tak, stop_sapient,
  create_backend, start_sapient, start_tak, start_fanout, Run, then_run, perform, perform_ok,
  storage, dial_peers, resolve_sapient_role, transport_tls, tak_mesh_config,
}

module _ (lib : Rustls) (parsers : Parsers) (answer : Call lib → Outcome (Unit {0})) where
  unfoldable pub mesh_up : String → Config → Run lib (Unit {0})
  unfolding then_run perform storage dial_peers
  mesh_up default_key config = then_run lib (storage lib answer config.node.storage) λ _.
      then_run lib
        (perform lib answer "create Automerge+iroh backend" (
          create_backend (unwrap_or "sapient-bridge-default" config.mesh.formation_id)
            (unwrap_or default_key config.mesh.shared_key) config.node.bind))
        λ _.
          then_run lib (perform lib answer "start mesh sync" start_sync)
            λ _. (dial_peers lib answer parsers config.mesh.peers, done tt)

  -- The server name is set together with the TLS configuration.
  unfoldable pub sni : Option (SapientTlsConfig lib) → Option String → Option String
  sni none name = none
  sni (some tls) name = name

  unfoldable pub sapient_up : SapientConfig → Run lib (Unit {0})
  unfolding then_run perform sni
  sapient_up cfg =
      then_run lib ([], resolve_sapient_role parsers.debug cfg)
        λ role.
          then_run lib ([], transport_tls lib cfg role)
            λ tls.
              perform lib answer "start SAPIENT transport"
                (start_sapient role tls (sni tls cfg.tls_server_name))

  -- Whether there is a TAK transport.
  unfoldable pub tak_up : Option String → TakConfig → Run lib Bool
  unfolding then_run perform
  tak_up none cfg = ([], done false)
  tak_up (some server_addr) cfg =
      then_run lib ([], tak_mesh_config server_addr cfg)
        λ config.
          then_run lib (perform lib answer "start TAK transport" (start_tak config))
            λ _. ([], done true)

  unfoldable pub fan_out : Bool → Run lib (Unit {0})
  unfolding then_run perform
  fan_out tak =
      then_run lib (perform lib answer "register SAPIENT translator" register_sapient) λ _.
        then_run lib
          (if tak then perform lib answer "register TAK translator" register_tak else ([], done tt))
          λ _. perform lib answer "start fan-out" (start_fanout ("tracks" ∷ []))

  unfoldable pub shut_down : Bool → Run lib (Unit {0})
  unfolding then_run perform_ok
  shut_down tak =
      then_run lib (wait_ctrl_c ∷ [], answer wait_ctrl_c)
        λ _.
          then_run lib (if tak then perform_ok lib answer stop_tak else ([], done tt))
            λ _. perform_ok lib answer stop_sapient

  unfoldable pub main : String → Config → Run lib (Unit {0})
  unfolding then_run mesh_up sapient_up tak_up fan_out shut_down
  main default_key config = then_run lib (mesh_up default_key config) λ _.
      then_run lib (sapient_up config.sapient) λ _.
        then_run lib (tak_up config.tak.server config.tak)
          λ tak. then_run lib (fan_out tak) λ _. shut_down tak
