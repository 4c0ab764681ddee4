-- ===== src/Program/Main/Order.antt =====
-- The order of the calls that `main` of peat-sapient-bridge/src/main.rs makes.
use peat_sapient.Base.{
  ℕ, ◌≤◌, String, ◌≡◌, refl, Bool, true, false, Option, none, some, List, [], ◌∷◌, arith,
  if◌then◌else◌,
}
use peat_sapient.Connection.{Outcome, done, failed, is_done}
use peat_sapient.Connection.Tls.{Rustls}
use peat_sapient.Program.Config.{Config, SapientConfig, TakConfig}
use peat_sapient.Program.Peer.{Parsers, parse_peer}
use peat_sapient.Program.Start.{
  Call, register_tak, wait_ctrl_c, stop_tak, stop_sapient, start_sapient, perform, perform_ok,
  storage, dial, dial_peers, resolve_sapient_role, transport_tls,
}
use peat_sapient.Program.Main.{mesh_up, sapient_up, sni, tak_up, fan_out, shut_down, main}
use peat_sapient.Program.Main.Stages.{
  stage, Staged, is_stop, stops, Part, Rest, Staged-append, stops-append, then_run-Part,
  then_run-Rest, Part-pure,
}

module _ {lib : Rustls} where
  module _ (parsers : Parsers) (answer : Call lib → Outcome (Unit {0})) where
    perform-Part :
        (lo : ℕ) (what : String) (call : Call lib)
        → is_stop call ≡ false
        → lo ≤ stage call
        → Part lo (stage call) (perform lib answer what call)
    unfolding perform
    perform-Part lo what call h k = record { staged = (k, omega arith); kept = rw h refl }

    storage-Part : (dir : Option String) → Part 0 0 (storage lib answer dir)
    unfolding storage
    storage-Part none = record { staged = (omega arith, omega arith); kept = refl }
    storage-Part (some dir) = record { staged = omega arith; kept = refl }

    dial-Staged :
        (peer : Outcome (String × List String))
        → Staged 3 3 (dial lib answer peer) × (stops (dial lib answer peer) ≡ false)
    unfolding dial
    dial-Staged (done (id_hex, addrs)) = ((omega arith, omega arith), refl)
    dial-Staged (failed e) = (omega arith, refl)

    dial_peers-Staged :
        (specs : List String)
        → Staged 3 3 (dial_peers lib answer parsers specs)
          × (stops (dial_peers lib answer parsers specs) ≡ false)
    unfolding dial_peers
    dial_peers-Staged [] = (omega arith, refl)
    dial_peers-Staged (spec ∷ rest) =
        let first = dial lib answer (parse_peer parsers spec) in
        let later = dial_peers lib answer parsers rest in
        let (staged, kept) = dial-Staged (parse_peer parsers spec) in
        let (staged', kept') = dial_peers-Staged rest in
        (Staged-append 3 3 3 first later staged staged', rw (stops-append first later, kept) kept')

    mesh_up-Part :
        (key : String) (config : Config) → Part 0 3 (mesh_up lib parsers answer key config)
    unfolding mesh_up
    mesh_up-Part key config =
        then_run-Part 0 0 3 _ _ (storage-Part config.node.storage) (omega arith) λ _.
          then_run-Part 0 1 3 _ _ (perform-Part 0 _ _ refl (omega arith)) (omega arith) λ _.
            then_run-Part 1 2 3 _ _ (perform-Part 1 _ _ refl (omega arith)) (omega arith) λ _.
              let (staged, kept) = dial_peers-Staged config.mesh.peers in
              record { staged = Staged-append 2 3 3 [] _ (omega arith) staged; kept = kept }

    sapient_up-Part : (cfg : SapientConfig) → Part 3 4 (sapient_up lib parsers answer cfg)
    unfolding sapient_up
    sapient_up-Part cfg =
        then_run-Part 3 3 4 _ _
          (Part-pure 3 3 (resolve_sapient_role parsers.debug cfg) (omega arith)) (omega arith)
          λ role.
            then_run-Part 3 3 4 _ _ (Part-pure 3 3 (transport_tls lib cfg role) (omega arith))
              (omega arith)
              λ tls.
                perform-Part 3 _
                  (start_sapient role tls (sni lib parsers answer tls cfg.tls_server_name)) refl
                  (omega arith)

    tak_up-Part :
        (server : Option String) (cfg : TakConfig) → Part 4 5 (tak_up lib parsers answer server cfg)
    unfolding tak_up
    tak_up-Part none cfg = Part-pure 4 5 _ (omega arith)
    tak_up-Part (some server_addr) cfg =
        then_run-Part 4 4 5 _ _ (Part-pure 4 4 _ (omega arith)) (omega arith) λ config.
          then_run-Part 4 5 5 _ _ (perform-Part 4 _ _ refl (omega arith)) (omega arith)
            λ _. Part-pure 5 5 _ (omega arith)

    translator-Part :
        (tak : Bool)
        → Part 6 7 (
            if tak
            then perform lib answer "register TAK translator" register_tak
            else ([], done tt))
    translator-Part true = perform-Part 6 _ _ refl (omega arith)
    translator-Part false = Part-pure 6 7 (done tt) (omega arith)

    fan_out-Part : (tak : Bool) → Part 5 8 (fan_out lib parsers answer tak)
    unfolding fan_out
    fan_out-Part tak =
        then_run-Part 5 6 8 _ _ (perform-Part 5 _ _ refl (omega arith)) (omega arith) λ _.
          then_run-Part 6 7 8 _ _ (translator-Part tak) (omega arith)
            λ _. perform-Part 7 _ _ refl (omega arith)

    stop-Part :
        (tak : Bool) → Part 9 10 (if tak then perform_ok lib answer stop_tak else ([], done tt))
    unfolding perform_ok
    stop-Part true = record { staged = (omega arith, omega arith); kept = refl }
    stop-Part false = Part-pure 9 10 (done tt) (omega arith)

    stop_sapient-Rest : Rest 10 (perform_ok lib answer stop_sapient)
    unfolding perform_ok
    stop_sapient-Rest = record { staged = (omega arith, omega arith); stopped = refl }

    shut_down-Rest : (tak : Bool) → Rest 8 (shut_down lib parsers answer tak)
    unfolding shut_down
    shut_down-Rest tak =
        then_run-Rest 8 9 (wait_ctrl_c ∷ [], answer wait_ctrl_c) _
          (record { staged = (omega arith, omega arith); kept = refl }) (omega arith)
          λ _. then_run-Rest 9 10 _ _ (stop-Part tak) (omega arith) λ _. stop_sapient-Rest

    main-Rest : (key : String) (config : Config) → Rest 0 (main lib parsers answer key config)
    unfolding main
    main-Rest key config = then_run-Rest 0 3 _ _ (mesh_up-Part key config) (omega arith) λ _.
        then_run-Rest 3 4 _ _ (sapient_up-Part config.sapient) (omega arith) λ _.
          then_run-Rest 4 5 _ _ (tak_up-Part config.tak.server config.tak) (omega arith)
            λ tak. then_run-Rest 5 8 _ _ (fan_out-Part tak) (omega arith) λ _. shut_down-Rest tak

  -- Whatever its configuration is and whatever is answered to its calls, `main` makes them in the order
  -- of the stages: the storage, the backend, the synchronisation, the peers, the SAPIENT transport, the
  -- TAK transport, the translators, the fan-out, the wait for the signal, and the stops, the SAPIENT
  -- transport last. It stops the SAPIENT transport exactly when it returns without an error.
  pub main-Staged :
      (parsers : Parsers) (answer : Call lib → Outcome (Unit {0})) (key : String) (config : Config)
      → let (calls, result) = main lib parsers answer key config in
        Staged 0 11 calls × (stops calls ≡ is_done result)
  main-Staged parsers answer key config =
      let rest = main-Rest parsers answer key config in (rest.staged, rest.stopped)
