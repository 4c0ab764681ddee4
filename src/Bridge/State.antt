-- ===== src/Bridge/State.antt =====
-- The shared state of peat-sapient/src/bridge.rs.
use peat_sapient.Base.{ℕ, String, Option, none, some, List, [], ◌∷◌, ◌++◌}
use peat_sapient.Base.Dict
use peat_sapient.Base.Dict.{Dict}
use peat_sapient.Float.{Float}
use peat_sapient.Proto.{SapientMessage, Timestamp}
use peat_sapient.Schema.{CapabilityAdvertisement, TrackPosition}
use peat_sapient.RateLimit
use peat_sapient.RateLimit.{RateLimitConfig, DetectionLimiter}
use peat_sapient.TaskQueue
use peat_sapient.TaskQueue.{TaskQueue}
use peat_sapient.Registry.{NodeRegistry, new_registry}
use peat_sapient.Bridge.Update.{SapientUpdate}

-- The configuration without the address that `start` binds.
pub record BridgeConfig (fl : Float) : Type 0 where
  pub node_id : String
  pub detection_rate_limit : Option (RateLimitConfig fl)
  pub heartbeat_interval : ℕ
  pub task_queue_depth : ℕ
  pub task_ttl : ℕ

-- `sent` is every message handed to a connection's writer and `updates` every update handed to the
-- application, the oldest first: the channels `mpsc::Sender` of the source, which lose nothing
-- while their reader lives.
pub record BridgeInner (fl : Float) : Type 0 where
  pub config : BridgeConfig fl
  pub detection_limiter : Option (DetectionLimiter fl)
  pub connections : Dict ℕ
  pub task_queue : TaskQueue (SapientMessage fl)
  pub task_commands : Dict String
  pub registry : NodeRegistry (CapabilityAdvertisement fl) (TrackPosition fl)
  pub sent : List (ℕ × SapientMessage fl)
  pub updates : List (SapientUpdate fl)

-- The readings of the clock in one handler: by `drain_expired`, `enqueue`, the two of the rate
-- limiter, `upsert`, and `now_proto_ts`.
pub record Clock : Type 0 where
  pub drained : ℕ
  pub enqueued : ℕ
  pub made : ℕ
  pub checked : ℕ
  pub heard : ℕ
  pub stamp : Timestamp

module _ {fl : Float} where
  -- `SapientBridge::new`.
  unfoldable pub new : BridgeConfig fl → BridgeInner fl
  new config = record {
    config = config;
    detection_limiter = elim config.detection_rate_limit [
      | none ↦ none
      | some c ↦ some (RateLimit.new fl c)
    ];
    connections = [];
    task_queue = TaskQueue.new config.task_queue_depth config.task_ttl;
    task_commands = [];
    registry = new_registry;
    sent = [];
    updates = [];
  }

  -- `write_tx.send(msg).await.ok()`.
  unfoldable pub write : ℕ → SapientMessage fl → BridgeInner fl → BridgeInner fl
  write conn msg inner = record inner { sent = inner.sent ++ (conn, msg) ∷ [] }

  unfoldable pub write_all : ℕ → List (SapientMessage fl) → BridgeInner fl → BridgeInner fl
  unfolding write
  write_all conn [] inner = inner
  write_all conn (msg ∷ msgs) inner = write_all conn msgs (write conn msg inner)

  -- `update_tx.send(update).await.ok()`.
  unfoldable pub emit : SapientUpdate fl → BridgeInner fl → BridgeInner fl
  emit update inner = record inner { updates = inner.updates ++ update ∷ [] }

-- `for id in ids { cmds.remove(&id); }`.
unfoldable pub discard : List String → Dict String → Dict String
discard [] cmds = cmds
discard (id ∷ ids) cmds = discard ids (Dict.remove id cmds)
