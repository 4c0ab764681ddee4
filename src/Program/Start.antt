-- ===== src/Program/Start.antt =====
-- `main` of peat-sapient-bridge/src/main.rs, compiled with TLS. What the mesh, the transports and the
-- operating system answer to each call is a parameter; the calls that were made are listed in order.
-- Dialling a mesh peer is a spawned task that only the mesh sees.
use peat_sapient.Base.{
  ℕ, String, concat, Bool, false, Option, none, some, List, [], ◌∷◌, ◌++◌, str_eq, if◌then◌else◌,
  unwrap_or,
}
use peat_sapient.Error.{Result, ok, err}
use peat_sapient.Connection.{Outcome, done, failed}
use peat_sapient.Connection.Tls.{Rustls, SapientTlsConfig, client, server}
use peat_sapient.Mesh.Transport.{SapientRole, hldmm, dlmm}
use peat_sapient.Program.Config.{SapientConfig, TakConfig}
use peat_sapient.Program.Peer.{Parsers, context, ◌>>=◌, parse_peer}

pub data TakProtocolVersion : Type 0 where
  raw_xml xml_tcp : TakProtocolVersion

pub record TakIdentity : Type 0 where
  pub client_cert : String
  pub client_key : String
  pub ca_cert : Option String
  pub callsign : String
  pub tls_server_name : Option String

pub record TakMeshConfig : Type 0 where
  pub server_addr : String
  pub peer_node_id : String
  pub use_tls : Bool
  pub identity : Option TakIdentity
  pub max_message_bytes : Option ℕ
  pub protocol_version : Option TakProtocolVersion

-- `ok_or_else(|| anyhow!(…))`.
unfoldable pub required {ℓ} : {A : Type ℓ} → String → Option A → Outcome A
required what none = failed what
required what (some a) = done a

unfoldable pub role_summary : SapientRole → String
role_summary (hldmm listen_addr) = concat "HLDMM listening on " listen_addr
role_summary (dlmm remote_addr peer_node_id) =
    concat "DLMM connecting to " (concat remote_addr (concat " as " peer_node_id))

module _ (debug : String → String) where
  unfoldable pub role_named : String → SapientConfig → Outcome SapientRole
  unfolding required
  role_named role cfg =
      if str_eq role "hldmm"
      then done (hldmm (unwrap_or "0.0.0.0:12000" cfg.listen))
      else if str_eq role "dlmm"
      then (required "DLMM mode requires sapient.remote address" cfg.remote >>= λ remote.
          done (dlmm remote (unwrap_or "hldmm-0" cfg.peer_node_id)))
      else failed
          (concat "unknown sapient.role: " (concat (debug role) " (expected hldmm or dlmm)"))

  unfoldable pub resolve_sapient_role : SapientConfig → Outcome SapientRole
  unfolding role_named
  resolve_sapient_role cfg = role_named (unwrap_or "hldmm" cfg.role) cfg

unfoldable pub tls_result {ℓ} : {A : Type ℓ} → String → Result A → Outcome A
tls_result what (ok a) = done a
tls_result what (err e) = failed what

module _ (lib : Rustls) where
  unfoldable pub tls_for :
      SapientRole → String → String → Option String → Outcome (SapientTlsConfig lib)
  unfolding required tls_result
  tls_for (hldmm listen_addr) cert key ca_cert =
      tls_result "build SAPIENT HLDMM TLS config" (server lib cert key ca_cert)
  tls_for (dlmm remote_addr peer_node_id) cert key ca_cert =
      required "SAPIENT DLMM TLS requires --sapient-ca-cert" ca_cert >>= λ ca.
      tls_result "build SAPIENT DLMM TLS config" (client lib ca (some cert) (some key))

  unfoldable pub build_sapient_tls : SapientConfig → SapientRole → Outcome (SapientTlsConfig lib)
  unfolding required tls_for
  build_sapient_tls cfg role = required "SAPIENT TLS requires --sapient-cert" cfg.cert >>= λ cert.
      required "SAPIENT TLS requires --sapient-key" cfg.key >>= λ key.
      tls_for role cert key cfg.ca_cert

  -- `if use_sapient_tls { … }`.
  unfoldable pub transport_tls :
      SapientConfig → SapientRole → Outcome (Option (SapientTlsConfig lib))
  unfolding build_sapient_tls
  transport_tls cfg role =
      if unwrap_or false cfg.tls
      then (build_sapient_tls cfg role >>= λ tls. done (some tls))
      else done none

unfoldable pub tak_identity : TakConfig → Outcome (Option TakIdentity)
unfolding required
tak_identity cfg =
    if unwrap_or false cfg.tls
    then (required "TAK TLS requires --tak-cert" cfg.client_cert >>= λ client_cert.
        required "TAK TLS requires --tak-key" cfg.client_key >>= λ client_key. done (
          some (record {
            client_cert = client_cert;
            client_key = client_key;
            ca_cert = cfg.ca_cert;
            callsign = unwrap_or "Peat-BRIDGE" cfg.callsign;
            tls_server_name = cfg.tls_server_name;
          })))
    else done none

unfoldable pub protocol_version : Option String → Outcome (Option TakProtocolVersion)
protocol_version none = done none
protocol_version (some name) =
    if str_eq name "raw-xml"
    then done (some raw_xml)
    else if str_eq name "xml-tcp"
    then done (some xml_tcp)
    else if str_eq name "protobuf-v1"
    then done none
    else failed (concat "unknown --tak-protocol: " name)

unfoldable pub tak_mesh_config : String → TakConfig → Outcome TakMeshConfig
unfolding tak_identity protocol_version
tak_mesh_config server_addr cfg = tak_identity cfg >>= λ identity.
    protocol_version cfg.protocol >>= λ version. done (record {
      server_addr = server_addr;
      peer_node_id = unwrap_or "tak-server-0" cfg.peer_node_id;
      use_tls = unwrap_or false cfg.tls;
      identity = identity;
      max_message_bytes = cfg.max_message_bytes;
      protocol_version = version;
    })

module _ (lib : Rustls) where
  pub data Call : Type 0 where
    make_tempdir start_sync register_sapient register_tak wait_ctrl_c stop_tak stop_sapient : Call
    create_backend : String → String → Option String → Call
    spawn_dial : String → List String → Call
    start_sapient : SapientRole → Option (SapientTlsConfig lib) → Option String → Call
    start_tak : TakMeshConfig → Call
    start_fanout : List String → Call

  -- The calls made so far, and what the code comes to.
  abbrev pub Run : Type 0 → Type 0
  Run A = List Call × Outcome A

  unfoldable pub then_run : {A B : Type 0} → Run A → (A → Run B) → Run B
  then_run (calls, done a) f = let (more, result) = f a in (calls ++ more, result)
  then_run (calls, failed e) f = (calls, failed e)

  module _ (answer : Call → Outcome (Unit {0})) where
    unfoldable pub perform : String → Call → Run (Unit {0})
    perform what call = (call ∷ [], context what (answer call))

    -- `.ok()`: the result is ignored.
    unfoldable pub perform_ok : Call → Run (Unit {0})
    perform_ok call = (call ∷ [], done tt)

    unfoldable pub storage : Option String → Run (Unit {0})
    storage (some dir) = ([], done tt)
    storage none = (make_tempdir ∷ [], answer make_tempdir)

    unfoldable pub dial : Outcome (String × List String) → List Call
    dial (done (id_hex, addrs)) = spawn_dial id_hex addrs ∷ []
    dial (failed e) = []

    -- A peer that does not parse is logged and left out.
    unfoldable pub dial_peers : Parsers → List String → List Call
    unfolding dial
    dial_peers parsers [] = []
    dial_peers parsers (spec ∷ rest) = dial (parse_peer parsers spec) ++ dial_peers parsers rest
