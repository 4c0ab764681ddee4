-- ===== src/Bridge/Connection/Replay.antt =====
-- The replay of tasks to a sensor that connects, in peat-sapient/src/bridge.rs.
use mathlib.Core.List.{append_assoc, append-nil}
use peat_sapient.Base.{
  ℕ, String, ◌≡◌, refl, ap, none, some, List, [], ◌∷◌, ◌++◌, map, retain, str_eq, if◌then◌else◌,
  true,
}
use peat_sapient.Base.Dict
use peat_sapient.Base.Dict.{get-insert}
use peat_sapient.Float.{Float}
use peat_sapient.Proto.{SapientMessage}
use peat_sapient.TaskQueue.{queue_of, pending_for, drain_expired}
use peat_sapient.TaskQueue.Expiry.{is_fresh, drain-partition}
use peat_sapient.Bridge.State.{BridgeInner, Clock, write, write_all}
use peat_sapient.Bridge.Connection.{make_registration_ack, expire_tasks, register, greet}

module _ {fl : Float} where
  -- What `write_all` adds to the log.
  pub write_all-appends :
      (conn : ℕ) (msgs : List (SapientMessage fl)) (inner : BridgeInner fl)
      → write_all conn msgs inner ≡ record inner { sent = inner.sent ++ map (λ m. (conn, m)) msgs }
  unfolding write_all write
  write_all-appends conn [] inner = rw append-nil
  write_all-appends conn (m ∷ msgs) inner = rw (write_all-appends conn msgs, append_assoc)

  -- The messages of the tasks of a node whose deadline has not passed, the oldest first.
  abbrev pub live_tasks : ℕ → String → BridgeInner fl → List (SapientMessage fl)
  live_tasks now node_id inner =
      map (λ t. t.msg) (retain (is_fresh now) (queue_of node_id inner.task_queue))

  pub pending-drained :
      (now : ℕ) (node_id : String) (inner : BridgeInner fl)
      → pending_for node_id (drain_expired now inner.task_queue).0 ≡ live_tasks now node_id inner
  unfolding pending_for
  pending-drained now node_id inner =
      ap (map (λ t. t.msg)) ((drain-partition now inner.task_queue).0 node_id)

  -- The first registration of a connection makes it the node's and hands to its writer the
  -- acknowledgement and then every queued task of the node whose deadline has not passed, the
  -- oldest first. These tasks stay pending. No update is emitted and the registry is unchanged.
  pub greet-replays :
      (clock : Clock) (conn : ℕ) (node_id : String) (inner : BridgeInner fl)
      → let (local, inner') = greet clock conn true none node_id inner in
        (local ≡ some node_id)
        × ((j : String)
            → Dict.get j inner'.connections
              ≡ (if str_eq node_id j then some conn else Dict.get j inner.connections))
        × (inner'.sent
            ≡ inner.sent
              ++ (conn, make_registration_ack clock.stamp inner.config.node_id node_id)
                ∷ map (λ m. (conn, m)) (live_tasks clock.drained node_id inner))
        × (pending_for node_id inner'.task_queue ≡ live_tasks clock.drained node_id inner)
        × (inner'.updates ≡ inner.updates)
        × (inner'.registry ≡ inner.registry)
  unfolding greet register expire_tasks pending_for write
  greet-replays clock conn node_id inner = rw write_all-appends (
    refl,
    λ j. get-insert j node_id conn inner.connections,
    rw (append_assoc, pending-drained),
    pending-drained clock.drained node_id inner,
    refl,
    refl,
  )
