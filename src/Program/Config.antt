-- ===== src/Program/Config.antt =====
-- peat-sapient-bridge/src/config.rs. Reading and parsing the file is one call outside the program;
-- a path or a socket address is a text.
pub mod Layers
use peat_sapient.Base.{ℕ, String, Bool, Option, none, some, List, [], ◌++◌}
use peat_sapient.Connection.{Outcome, done, failed}

pub record Cli : Type 0 where
  pub config : Option String
  pub name : Option String
  pub bind : Option String
  pub peer : List String
  pub sapient_listen : Option String
  pub sapient_remote : Option String
  pub sapient_peer_id : Option String
  pub sapient_tls : Option Bool
  pub sapient_cert : Option String
  pub sapient_key : Option String
  pub sapient_ca_cert : Option String
  pub sapient_server_name : Option String
  pub storage : Option String
  pub tak_server : Option String
  pub tak_tls : Option Bool
  pub tak_cert : Option String
  pub tak_key : Option String
  pub tak_ca_cert : Option String
  pub tak_callsign : Option String
  pub tak_server_name : Option String
  pub tak_peer_id : String
  pub tak_max_message_bytes : Option ℕ
  pub tak_protocol : Option String

pub record NodeConfig : Type 0 where
  pub name : Option String
  pub bind : Option String
  pub storage : Option String

pub record MeshConfig : Type 0 where
  pub formation_id : Option String
  pub shared_key : Option String
  pub peers : List String

pub record SapientConfig : Type 0 where
  pub role : Option String
  pub listen : Option String
  pub remote : Option String
  pub peer_node_id : Option String
  pub tls : Option Bool
  pub cert : Option String
  pub key : Option String
  pub ca_cert : Option String
  pub tls_server_name : Option String

pub record TakConfig : Type 0 where
  pub server : Option String
  pub tls : Option Bool
  pub client_cert : Option String
  pub client_key : Option String
  pub ca_cert : Option String
  pub callsign : Option String
  pub tls_server_name : Option String
  pub peer_node_id : Option String
  pub max_message_bytes : Option ℕ
  pub protocol : Option String

pub record Config : Type 0 where
  pub node : NodeConfig
  pub mesh : MeshConfig
  pub sapient : SapientConfig
  pub tak : TakConfig

unfoldable pub default_config : Config
default_config = record {
  node = record { name = none; bind = none; storage = none };
  mesh = record { formation_id = none; shared_key = none; peers = [] };
  sapient = record {
    role = none;
    listen = none;
    remote = none;
    peer_node_id = none;
    tls = none;
    cert = none;
    key = none;
    ca_cert = none;
    tls_server_name = none;
  };
  tak = record {
    server = none;
    tls = none;
    client_cert = none;
    client_key = none;
    ca_cert = none;
    callsign = none;
    tls_server_name = none;
    peer_node_id = none;
    max_message_bytes = none;
    protocol = none;
  };
}

-- `if let Some(value) = flag { field = Some(value) }`.
unfoldable pub override {ℓ} : {A : Type ℓ} → Option A → Option A → Option A
override (some value) field = some value
override none field = field

-- `field.get_or_insert(value)`.
unfoldable pub get_or_insert {ℓ} : {A : Type ℓ} → A → Option A → Option A
get_or_insert value (some field) = some field
get_or_insert value none = some value

unfoldable pub listen_flag : Option String → SapientConfig → SapientConfig
listen_flag (some addr) c = record c { role = some "hldmm"; listen = some addr }
listen_flag none c = c

unfoldable pub remote_flag : Option String → SapientConfig → SapientConfig
remote_flag (some addr) c = record c { role = some "dlmm"; remote = some addr }
remote_flag none c = c

unfoldable pub sapient_flags : Cli → SapientConfig → SapientConfig
unfolding override listen_flag remote_flag
sapient_flags cli file =
    let c = remote_flag cli.sapient_remote (listen_flag cli.sapient_listen file) in
    record c {
      peer_node_id = override cli.sapient_peer_id c.peer_node_id;
      tls = override cli.sapient_tls c.tls;
      cert = override cli.sapient_cert c.cert;
      key = override cli.sapient_key c.key;
      ca_cert = override cli.sapient_ca_cert c.ca_cert;
      tls_server_name = override cli.sapient_server_name c.tls_server_name;
    }

unfoldable pub tak_flags : Cli → TakConfig → TakConfig
unfolding override get_or_insert
tak_flags cli c = record {
  server = override cli.tak_server c.server;
  tls = override cli.tak_tls c.tls;
  client_cert = override cli.tak_cert c.client_cert;
  client_key = override cli.tak_key c.client_key;
  ca_cert = override cli.tak_ca_cert c.ca_cert;
  callsign = override cli.tak_callsign c.callsign;
  tls_server_name = override cli.tak_server_name c.tls_server_name;
  peer_node_id = get_or_insert cli.tak_peer_id c.peer_node_id;
  max_message_bytes = override cli.tak_max_message_bytes c.max_message_bytes;
  protocol = override cli.tak_protocol c.protocol;
}

unfoldable pub apply_flags : Cli → Config → Config
unfolding sapient_flags tak_flags override
apply_flags cli file = record {
  node = record {
    name = override cli.name file.node.name;
    bind = override cli.bind file.node.bind;
    storage = override cli.storage file.node.storage;
  };
  mesh = record file.mesh { peers = file.mesh.peers ++ cli.peer };
  sapient = sapient_flags cli file.sapient;
  tak = tak_flags cli file.tak;
}

unfoldable pub flags_over : Cli → Outcome Config → Outcome Config
unfolding apply_flags
flags_over cli (done file) = done (apply_flags cli file)
flags_over cli (failed e) = failed e

-- `read path` is the file read and parsed.
unfoldable pub load : (String → Outcome Config) → Cli → Outcome Config
unfolding flags_over default_config
load read cli = elim cli.config [
  | none ↦ flags_over cli (done default_config)
  | some path ↦ flags_over cli (read path)
]
