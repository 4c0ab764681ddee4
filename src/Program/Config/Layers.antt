-- ===== src/Program/Config/Layers.antt =====
-- How the flags and the file of peat-sapient-bridge decide the role of the bridge.
use peat_sapient.Base.{
  String, ◌≡◌, refl, Option, none, some, or_else, unwrap_or, Option-cases, inl, inr,
}
use peat_sapient.Connection.{Outcome, done}
use peat_sapient.Mesh.Transport.{SapientRole, hldmm, dlmm}
use peat_sapient.Program.Config.{
  Cli, Config, SapientConfig, override, sapient_flags, listen_flag, remote_flag, apply_flags,
}
use peat_sapient.Program.Start.{resolve_sapient_role, role_named, required}

override-or_else {ℓ} : {A : Type ℓ} (a b : Option A) → override a b ≡ or_else a b
unfolding override
override-or_else none b = refl
override-or_else (some a) b = refl

-- The role that flags and file ask for together, the flags read first.
abbrev pub role_of :
    (String → String)
    → Option String
    → Option String
    → Option String
    → SapientConfig
    → Outcome SapientRole
role_of debug (some remote) listen peer_id file =
    done (dlmm remote (unwrap_or "hldmm-0" (or_else peer_id file.peer_node_id)))
role_of debug none (some addr) peer_id file = done (hldmm addr)
role_of debug none none peer_id file =
    resolve_sapient_role debug (record file { peer_node_id = or_else peer_id file.peer_node_id })

-- Whatever the file says: with a remote address among the flags the bridge is a DLMM that dials it,
-- also when a listen address stands among them too; with a listen address alone it is an HLDMM that
-- listens there; with neither, the file decides. The identifier of the peer is the flag's, else the
-- file's, else `hldmm-0`.
pub resolve-apply_flags :
    (debug : String → String) (cli : Cli) (file : Config)
    → resolve_sapient_role debug (apply_flags cli file).sapient
      ≡ role_of debug cli.sapient_remote cli.sapient_listen cli.sapient_peer_id file.sapient
unfolding apply_flags sapient_flags listen_flag remote_flag resolve_sapient_role role_named required
resolve-apply_flags debug cli file =
    let same = override-or_else cli.sapient_peer_id file.sapient.peer_node_id in
    elim (Option-cases cli.sapient_remote) [
      | inl r ↦ elim (Option-cases cli.sapient_listen) [
        | inl l ↦ rw (r, l, remote_flag, listen_flag, same)
        | inr (addr, l) ↦ rw (r, l, remote_flag, listen_flag)
      ]
      | inr (addr, r) ↦ elim (Option-cases cli.sapient_listen) [
        | inl l ↦ rw (r, l, remote_flag, listen_flag, same)
        | inr (b, l) ↦ rw (r, l, remote_flag, listen_flag, same)
      ]
    ]
