-- ===== src/Connection/Tls.antt =====
-- The TLS part of peat-sapient/src/connection.rs. The file system, the PEM parser and the TLS library
-- are the parameter `lib`; only the order of the calls and the texts of the errors are the program's.

pub mod Roles
use peat_sapient.Base.{ℕ, String, concat, Option, none, some, List, [], ◌∷◌}
use peat_sapient.Error.{Result, ok, err, ◌>>=◌, connection_failed}
use peat_sapient.Connection.{Outcome, done, failed, ReconnectConfig, Retry, retry_loop}

pub record Rustls : Type 1 where
  pub File : Type 0
  pub Certificate : Type 0
  pub PrivateKey : Type 0
  pub RootStore : Type 0
  pub Verifier : Type 0
  pub ServerName : Type 0
  pub ClientConfig : Type 0
  pub ServerConfig : Type 0
  -- `std::fs::File::open`, and `{path:?}`.
  pub open_file : String → Outcome File
  pub debug : String → String
  -- `rustls_pemfile`.
  pub certs : File → Outcome (List Certificate)
  pub private_key : File → Outcome (Option PrivateKey)
  pub empty_store : RootStore
  pub add_root : Certificate → RootStore → Outcome RootStore
  -- `with_safe_default_protocol_versions` with the cipher suites of `fips_crypto_provider`.
  pub versions : Outcome (Unit {0})
  pub client_auth_cert : RootStore → List Certificate → PrivateKey → Outcome ClientConfig
  pub no_client_auth : RootStore → ClientConfig
  pub build_verifier : RootStore → Outcome Verifier
  pub single_cert : Option Verifier → List Certificate → PrivateKey → Outcome ServerConfig
  pub server_name : String → Outcome ServerName

-- `map_err(|e| ConnectionFailed(format!("<what>{e}")))`.
unfoldable pub map_err {ℓ} : {A : Type ℓ} → String → Outcome A → Result A
map_err what (done a) = ok a
map_err what (failed e) = err (connection_failed (concat what e))

-- `ok_or_else`.
unfoldable pub required {ℓ} : {A : Type ℓ} → String → Option A → Result A
required what none = err (connection_failed what)
required what (some a) = ok a

module _ (lib : Rustls) where
  open lib use {
    Certificate, PrivateKey, RootStore, ClientConfig, ServerConfig, ServerName, open_file, debug,
    certs, private_key, empty_store, add_root, versions, client_auth_cert, no_client_auth,
    build_verifier, single_cert, server_name,
  }

  -- `SapientTlsConfigInner`, behind its `Arc`.
  pub record SapientTlsConfig : Type 0 where
    pub client_config : Option ClientConfig
    pub server_config : Option ServerConfig

  unfoldable pub load_certs : String → Result (List Certificate)
  unfolding map_err
  load_certs path =
      map_err (concat "open cert " (concat (debug path) ": ")) (open_file path) >>= λ file.
      map_err "parse cert PEM: " (certs file)

  unfoldable pub load_key : String → Result PrivateKey
  unfolding map_err required
  load_key path =
      map_err (concat "open key " (concat (debug path) ": ")) (open_file path) >>= λ file.
      map_err "parse key PEM: " (private_key file) >>= λ key.
      required "no private key found in PEM file" key

  -- `for cert in ca_certs { root_store.add(cert)?; }`
  unfoldable pub add_roots : List Certificate → RootStore → Result RootStore
  unfolding map_err
  add_roots [] store = ok store
  add_roots (cert ∷ rest) store =
      map_err "add CA cert: " (add_root cert store) >>= λ longer. add_roots rest longer

  -- The text of a PEM error differs between the two constructors.
  unfoldable pub load_roots : String → String → Result RootStore
  unfolding map_err
  load_roots pem_error ca_cert = map_err "open CA cert: " (open_file ca_cert) >>= λ file.
      map_err pem_error (certs file) >>= λ ca_certs. add_roots ca_certs empty_store

  unfoldable pub build_client : RootStore → Option String → Option String → Result ClientConfig
  unfolding map_err
  build_client store (some cert_path) (some key_path) = load_certs cert_path >>= λ chain.
      load_key key_path >>= λ key. map_err "TLS version config: " versions >>= λ _.
      map_err "TLS client auth: " (client_auth_cert store chain key)
  build_client store (some cert_path) none =
      map_err "TLS version config: " versions >>= λ _. ok (no_client_auth store)
  build_client store none client_key =
      map_err "TLS version config: " versions >>= λ _. ok (no_client_auth store)

  unfoldable pub client : String → Option String → Option String → Result SapientTlsConfig
  client ca_cert client_cert client_key = load_roots "parse CA cert PEM: " ca_cert >>= λ store.
      build_client store client_cert client_key >>= λ config.
      ok (record { client_config = some config; server_config = none })

  unfoldable pub build_server : List Certificate → PrivateKey → Option String → Result ServerConfig
  unfolding map_err
  build_server chain key none = map_err "TLS version config: " versions >>= λ _.
      map_err "TLS server cert: " (single_cert none chain key)
  build_server chain key (some ca_path) = load_roots "parse CA cert: " ca_path >>= λ store.
      map_err "client verifier build: " (build_verifier store) >>= λ verifier.
      map_err "TLS version config: " versions >>= λ _.
      map_err "TLS server cert: " (single_cert (some verifier) chain key)

  unfoldable pub server : String → String → Option String → Result SapientTlsConfig
  server server_cert server_key ca_cert = load_certs server_cert >>= λ chain.
      load_key server_key >>= λ key. build_server chain key ca_cert >>= λ config.
      ok (record { client_config = none; server_config = some config })

  module _ {Stream TlsStream : Type 0} where
    -- `dial` is what the network returns, `handshake` what the TLS library makes of the stream.
    unfoldable pub connect_tls :
        SapientTlsConfig
        → String
        → Outcome Stream
        → (ClientConfig → ServerName → Stream → Outcome TlsStream)
        → Result TlsStream
    unfolding required map_err
    connect_tls tls name dial handshake =
        required "TLS config has no client config" tls.client_config >>= λ connector.
        map_err "invalid server name: " (server_name name) >>= λ peer_name.
        map_err "" dial >>= λ stream.
        map_err "TLS handshake: " (handshake connector peer_name stream)

    unfoldable pub connect_tls_with_retry :
        SapientTlsConfig
        → String
        → (ℕ → Outcome Stream)
        → (ℕ → ClientConfig → ServerName → Stream → Outcome TlsStream)
        → ReconnectConfig
        → ℕ
        → Retry TlsStream
    unfolding retry_loop
    connect_tls_with_retry tls name dial handshake config fuel =
        retry_loop config (λ i. connect_tls tls name (dial i) (handshake i)) fuel 0
          config.initial_delay

    unfoldable pub accept_tls :
        SapientTlsConfig
        → Outcome (Stream × String)
        → (ServerConfig → Stream → Outcome TlsStream)
        → Result (TlsStream × String)
    unfolding required map_err
    accept_tls tls accepted handshake =
        required "TLS config has no server config" tls.server_config >>= λ acceptor.
        map_err "" accepted >>= λ (stream_peer : Stream × String).
        map_err "TLS accept: " (handshake acceptor stream_peer.0) >>= λ tls_stream.
        ok (tls_stream, stream_peer.1)
