-- ===== src/TaskQueue/Expiry.antt =====
-- Which tasks `drain_expired` of peat-sapient/src/task_queue.rs discards.
use peat_sapient.Base.{
  ℕ, ◌+◌, String, Bool, not, ◌≡◌, refl, ◌∙◌, List, [], ◌∷◌, ◌++◌, map, arith, leb, retain,
  retain-append,
}
use mathlib.Core.List.{map-append}
use peat_sapient.Base.Dict.{Dict}
use peat_sapient.TaskQueue.{
  QueuedTask, TaskQueue, queue_of, is_expired, drain_queues, drain_expired,
}
use peat_sapient.TaskQueue.Queues.{queue_of-drain}

module _ {Msg : Type 0} where
  -- The deadline of a task has not passed.
  abbrev pub is_fresh : ℕ → QueuedTask Msg → Bool
  is_fresh now t = leb now (t.enqueued_at + t.ttl)

  pub retain-fresh :
      (now : ℕ) (ts : List (QueuedTask Msg))
      → (retain (λ t. not (is_expired now t)) ts ≡ retain (is_fresh now) ts)
        × (retain (is_expired now) ts ≡ retain (λ t. not (is_fresh now t)) ts)
  unfolding is_expired
  retain-fresh now [] = (refl, refl)
  retain-fresh now (t ∷ ts) = ground (arith, retain-fresh now ts)

  -- The tasks of all nodes, node by node.
  abbrev pub all_tasks : Dict (List (QueuedTask Msg)) → List (QueuedTask Msg)
  all_tasks [] = []
  all_tasks ((node_id, ts) ∷ m) = ts ++ all_tasks m

  drain_queues-partition :
      (now : ℕ) (m : Dict (List (QueuedTask Msg)))
      → (all_tasks (drain_queues now m).0 ≡ retain (is_fresh now) (all_tasks m))
        × ((drain_queues now m).1
            ≡ map (λ t. t.task_id) (retain (λ t. not (is_fresh now t)) (all_tasks m)))
  unfolding drain_queues
  drain_queues-partition now [] = (refl, refl)
  drain_queues-partition now ((node_id, ts) ∷ m) =
      let (kept, dropped) = drain_queues-partition now m in
      let (fresh, stale) = retain-fresh now ts in
      (rw (retain-append, kept, fresh), rw (retain-append, map-append, dropped, stale))

  -- `drain_expired` keeps exactly the tasks whose deadline `enqueued_at + ttl` has not passed, in
  -- their order, for every node, and returns the identifiers of exactly the others.
  pub drain-partition :
      (now : ℕ) (q : TaskQueue Msg)
      → ((node_id : String)
          → queue_of node_id (drain_expired now q).0 ≡ retain (is_fresh now) (queue_of node_id q))
        × (all_tasks (drain_expired now q).0.queues ≡ retain (is_fresh now) (all_tasks q.queues))
        × ((drain_expired now q).1
            ≡ map (λ t. t.task_id) (retain (λ t. not (is_fresh now t)) (all_tasks q.queues)))
  unfolding drain_expired
  drain-partition now q =
      let (kept, dropped) = drain_queues-partition now q.queues in
      (λ j. queue_of-drain now j q ∙ (retain-fresh now (queue_of j q)).0, kept, dropped)
