-- ===== src/TaskQueue.antt =====
-- peat-sapient/src/task_queue.rs: the outbound task queue of each node. `Instant::now()` is the
-- argument `now` of each operation, and a `Duration` is a number of the same unit. The queue never
-- looks inside a message, so it is generic in `Msg`. A `VecDeque` is a list, oldest task first.
pub mod Queues
pub mod Bound
pub mod Expiry
pub mod Holds
pub mod Durable
pub mod Ack
use peat_sapient.Base.{
  ℕ, ◌-◌, ◌<◌, String, Bool, true, false, not, Option, none, some, List, [], ◌∷◌, ◌++◌, map, str_eq,
  ltb, leb, if◌then◌else◌, length, is_empty, retain, unwrap_or,
}
use peat_sapient.Base.Dict
use peat_sapient.Base.Dict.{Dict}

pub record QueuedTask (Msg : Type 0) : Type 0 where
  pub msg : Msg
  pub task_id : String
  pub enqueued_at : ℕ
  pub ttl : ℕ

pub record TaskQueue (Msg : Type 0) : Type 0 where
  pub queues : Dict (List (QueuedTask Msg))
  pub max_depth : ℕ
  pub default_ttl : ℕ

module _ {Msg : Type 0} where
  unfoldable pub new : ℕ → ℕ → TaskQueue Msg
  new max_depth default_ttl = record {
    queues = [];
    max_depth = max_depth;
    default_ttl = default_ttl;
  }

  -- The queue of a node, which `entry(..).or_default()` makes where there is none.
  unfoldable pub queue_of : String → TaskQueue Msg → List (QueuedTask Msg)
  queue_of node_id q = unwrap_or [] (Dict.get node_id q.queues)

  -- `pop_front`: the identifier of the oldest task and the tasks behind it.
  unfoldable pub pop_front : List (QueuedTask Msg) → Option String × List (QueuedTask Msg)
  pop_front [] = (none, [])
  pop_front (t ∷ ts) = (some t.task_id, ts)

  -- The `if queue.len() >= self.max_depth` of `enqueue`.
  unfoldable pub make_room : ℕ → List (QueuedTask Msg) → Option String × List (QueuedTask Msg)
  unfolding pop_front
  make_room max_depth ts = if leb max_depth (length ts) then pop_front ts else (none, ts)

  unfoldable pub enqueue : ℕ → String → String → Msg → TaskQueue Msg → TaskQueue Msg × Option String
  unfolding queue_of make_room
  enqueue now node_id task_id msg q =
      let (evicted, rest) = make_room q.max_depth (queue_of node_id q) in
      let task : QueuedTask Msg = record {
        msg = msg;
        task_id = task_id;
        enqueued_at = now;
        ttl = q.default_ttl;
      } in
      (record q { queues = Dict.insert node_id (rest ++ task ∷ []) q.queues }, evicted)

  unfoldable pub has_other_id : String → QueuedTask Msg → Bool
  has_other_id task_id t = not (str_eq t.task_id task_id)

  unfoldable pub ack : String → String → TaskQueue Msg → TaskQueue Msg
  unfolding has_other_id
  ack node_id task_id q = elim (Dict.get node_id q.queues) [
    | none ↦ q
    | some ts ↦ record q {
      queues = Dict.insert node_id (retain (has_other_id task_id) ts) q.queues;
    }
  ]

  -- `now.duration_since(t.enqueued_at) > t.ttl`; `duration_since` stops at zero, as `-` does.
  unfoldable pub is_expired : ℕ → QueuedTask Msg → Bool
  is_expired now t = ltb t.ttl (now - t.enqueued_at)

  unfoldable pub drain_queues :
      ℕ → Dict (List (QueuedTask Msg)) → Dict (List (QueuedTask Msg)) × List String
  unfolding is_expired
  drain_queues now [] = ([], [])
  drain_queues now ((node_id, ts) ∷ m) =
      let (m', ids) = drain_queues now m in
      (
        (node_id, retain (λ t. not (is_expired now t)) ts) ∷ m',
        map (λ t. t.task_id) (retain (is_expired now) ts) ++ ids,
      )

  unfoldable pub drain_expired : ℕ → TaskQueue Msg → TaskQueue Msg × List String
  unfolding drain_queues
  drain_expired now q = let (m, ids) = drain_queues now q.queues in (record q { queues = m }, ids)

  unfoldable pub pending_for : String → TaskQueue Msg → List Msg
  unfolding queue_of
  pending_for node_id q = map (λ t. t.msg) (queue_of node_id q)

  unfoldable pub is_empty_for : String → TaskQueue Msg → Bool
  is_empty_for node_id q = elim (Dict.get node_id q.queues) [ none ↦ true | some ts ↦ is_empty ts ]

-- The calls that change the queue, for its history.
pub data Call (Msg : Type 0) : Type 0 where
  enqueues : ℕ → String → String → Msg → Call Msg
  acks : String → String → Call Msg
  drains : ℕ → Call Msg

module _ {Msg : Type 0} where
  unfoldable pub step : TaskQueue Msg → Call Msg → TaskQueue Msg
  step q (enqueues now node_id task_id msg) = (enqueue now node_id task_id msg q).0
  step q (acks node_id task_id) = ack node_id task_id q
  step q (drains now) = (drain_expired now q).0

  unfoldable pub run : TaskQueue Msg → List (Call Msg) → TaskQueue Msg
  run q [] = q
  run q (c ∷ cs) = run (step q c) cs
