-- ===== src/Connection/Tls/Roles.antt =====
-- What a TLS configuration of peat-sapient/src/connection.rs can be used for.
use peat_sapient.Base.{String, ◌≡◌, Option, none, some}
use peat_sapient.Error.{Result, ok, err, ◌>>=◌, connection_failed}
use peat_sapient.Connection.{Outcome, done}
use peat_sapient.Connection.Tls.{
  Rustls, SapientTlsConfig, load_certs, load_key, load_roots, build_client, client, build_server,
  server, connect_tls, accept_tls, required, map_err,
}

-- What follows from each way in which the rest of a successful chain succeeds, holds.
on_success {ℓ κ μ} :
    {Goal : Type μ} {A : Type ℓ} {B : Type κ} {last : B} (first : Result A) (rest : A → Result B)
    → (first >>= rest) ≡ ok last
    → ((a : A) → rest a ≡ ok last → Goal)
    → Goal
on_success (ok a) rest success k = k a success
on_success (err e) rest success k = absurd (cc)

-- The constructor that is called, with its arguments.
pub data Origin : Type 0 where
  client_of : String → Option String → Option String → Origin
  server_of : String → String → Option String → Origin

module _ (lib : Rustls) where
  abbrev pub built : Origin → Result (SapientTlsConfig lib)
  built (client_of ca cert key) = client lib ca cert key
  built (server_of cert key ca) = server lib cert key ca

  client-fields :
      (ca : String) (cert key : Option String) {tls : SapientTlsConfig lib}
      → client lib ca cert key ≡ ok tls
      → (tls.server_config ≡ none)
        × ((config : lib.ClientConfig) × (tls.client_config ≡ some config))
  unfolding client
  client-fields ca cert key h =
      on_success (load_roots lib "parse CA cert PEM: " ca) _ h λ store made.
        on_success (build_client lib store cert key) _ made λ config last. (cc, (config, cc))

  server-fields :
      (cert key : String) (ca : Option String) {tls : SapientTlsConfig lib}
      → server lib cert key ca ≡ ok tls
      → (tls.client_config ≡ none)
        × ((config : lib.ServerConfig) × (tls.server_config ≡ some config))
  unfolding server
  server-fields cert key ca h = on_success (load_certs lib cert) _ h λ chain loaded.
      on_success (load_key lib key) _ loaded λ secret read.
        on_success (build_server lib chain secret ca) _ read λ config last. (cc, (config, cc))

  module _ {Stream TlsStream : Type 0} (name : String) (peer_name : lib.ServerName)
      (stream : Stream) (addr : String) (dial : Outcome Stream)
      (accepted : Outcome (Stream × String))
      (connecting : lib.ClientConfig → lib.ServerName → Stream → Outcome TlsStream)
      (accepting : lib.ServerConfig → Stream → Outcome TlsStream) where
    -- What a configuration of this origin does with a stream: its own side runs the handshake of its
    -- configuration on it and returns what comes of it, and the other side refuses.
    abbrev pub Serves : Origin → SapientTlsConfig lib → Type 0
    Serves (client_of ca cert key) tls =
        (accept_tls lib tls accepted accepting
          ≡ err (connection_failed "TLS config has no server config"))
        × ((config : lib.ClientConfig) × (tls.client_config ≡ some config)
            × (connect_tls lib tls name (done stream) connecting
                ≡ map_err "TLS handshake: " (connecting config peer_name stream)))
    Serves (server_of cert key ca) tls =
        (connect_tls lib tls name dial connecting
          ≡ err (connection_failed "TLS config has no client config"))
        × ((config : lib.ServerConfig) × (tls.server_config ≡ some config)
            × (accept_tls lib tls (done (stream, addr)) accepting ≡ (
                map_err "TLS accept: " (accepting config stream) >>= λ tls_stream.
                ok (tls_stream, addr))))

    -- What `client` returned connects, and what `server` returned accepts: where the name is a valid
    -- server name and there is a stream, the result is that of the handshake with the configuration
    -- that was built, its error with a prefix. Each refuses the other use for want of a configuration,
    -- whatever the network and the handshake do.
    pub built-Serves :
        (from : Origin) (tls : SapientTlsConfig lib)
        → built from ≡ ok tls
        → lib.server_name name ≡ done peer_name
        → Serves from tls
    unfolding connect_tls accept_tls required map_err
    built-Serves (client_of ca cert key) tls h valid =
        let (no_server, (config, own)) = client-fields ca cert key h in
        (rw no_server, (config, own, rw (own, valid)))
    built-Serves (server_of cert key ca) tls h valid =
        let (no_client, (config, own)) = server-fields cert key ca h in
        (rw no_client, (config, own, rw own))
