-- ===== src/TaskQueue/Durable.antt =====
-- How long a task stays pending in peat-sapient/src/task_queue.rs.
use mathlib.Core.List.{map-append, append_assoc, append-nil, Sublistᴰ}
use peat_sapient.Base.{
  ℕ, ◌+◌, ◌≤◌, ◌<◌, String, false, not, ◌&&◌, ◌≡◌, refl, ap, ◌∙◌, List, [], ◌∷◌, ◌++◌, arith,
  str_eq, eq_iff, eq_refl, if◌then◌else◌, length, length-append, drop, All, inl, inr, Bool-cases,
}
use peat_sapient.TaskQueue.{
  QueuedTask, TaskQueue, Call, enqueues, acks, drains, queue_of, enqueue, has_other_id, is_expired,
  pending_for, step, run,
}
use peat_sapient.TaskQueue.Queues.{
  queue_of-enqueue, queue_of-ack, queue_of-drain, queued, surplus, step-config,
}
use peat_sapient.TaskQueue.Holds.{
  messages, Holds, append-Holds, drop-Holds, retain-Holds, drop-Sublistᴰ,
}

module _ {Msg : Type 0} where
  -- The call does not acknowledge the task, and does not look for expired tasks after its deadline.
  abbrev pub Spares : String → QueuedTask Msg → Call Msg → Type 0
  Spares node_id t (enqueues now k task_id msg) = Unit {0}
  Spares node_id t (acks k task_id) = (str_eq k node_id && str_eq t.task_id task_id) ≡ false
  Spares node_id t (drains now) = now ≤ t.enqueued_at + t.ttl

  -- The messages that the call adds for the node.
  abbrev pub arrived_in : String → Call Msg → List Msg
  arrived_in node_id (enqueues now k task_id msg) = if str_eq k node_id then msg ∷ [] else []
  arrived_in node_id (acks k task_id) = []
  arrived_in node_id (drains now) = []

  abbrev pub arrived : String → List (Call Msg) → List Msg
  arrived node_id [] = []
  arrived node_id (c ∷ cs) = arrived_in node_id c ++ arrived node_id cs

  Held : String → QueuedTask Msg → List Msg → List Msg → TaskQueue Msg → Type 0
  Held node_id t older newer q = Holds t older newer (queue_of node_id q)

  step-Held :
      (node_id : String) (t : QueuedTask Msg) (older newer : List Msg) (q : TaskQueue Msg)
      (c : Call Msg)
      → Spares node_id t c
      → length (newer ++ arrived_in node_id c) < q.max_depth
      → Held node_id t older newer q
      → Held node_id t older (newer ++ arrived_in node_id c) (step q c)
  unfolding step Held has_other_id is_expired
  step-Held node_id t older newer q (enqueues now j task_id msg) s room h =
      rw queue_of-enqueue (elim (Bool-cases (str_eq j node_id)) [
        | inl e ↦
            rw ((eq_iff j node_id).0 e, eq_refl node_id)
              (append-Holds t (queued now task_id msg q)
                (drop-Holds q.max_depth t (ground (arith, length-append newer (msg ∷ []))) h))
        | inr e ↦ rw (e, append-nil) h
      ])
  step-Held node_id t older newer q (acks j task_id) s room h =
      rw (queue_of-ack, append-nil)
        (elim (Bool-cases (str_eq j node_id)) [
          | inl e ↦ rw e (retain-Holds (has_other_id task_id) t (ground arith) h)
          | inr e ↦ rw e h
        ])
  step-Held node_id t older newer q (drains now) s room h =
      rw (queue_of-drain, append-nil)
        (retain-Holds (λ u. not (is_expired now u)) t (ground arith) h)

  enqueue-Held :
      (now : ℕ) (node_id task_id : String) (msg : Msg) (q : TaskQueue Msg)
      → Held node_id
          (queued now task_id msg q)
          (pending_for node_id q)
          []
          (enqueue now node_id task_id msg q).0
  unfolding Held pending_for
  enqueue-Held now node_id task_id msg q =
      rw (queue_of-enqueue, eq_refl node_id)
        (record {
          ahead = drop (surplus q.max_depth (queue_of node_id q)) (queue_of node_id q);
          behind = [];
          split = refl;
          from_older =
              drop-Sublistᴰ (surplus q.max_depth (queue_of node_id q)) (queue_of node_id q);
          from_newer = Sublistᴰ.slnil;
        })

  run-Held :
      (node_id : String) (t : QueuedTask Msg) (older newer : List Msg) (q : TaskQueue Msg)
      (cs : List (Call Msg))
      → All (Spares node_id t) cs
      → length (newer ++ arrived node_id cs) < q.max_depth
      → Held node_id t older newer q
      → Held node_id t older (newer ++ arrived node_id cs) (run q cs)
  unfolding run
  run-Held node_id t older newer q [] s room h = rw append-nil h
  run-Held node_id t older newer q (c ∷ cs) s room h =
      let now_and_later = append_assoc newer (arrived_in node_id c) (arrived node_id cs) in
      let both = length-append (newer ++ arrived_in node_id c) (arrived node_id cs) in
      let same = ap length now_and_later in
      rw (← append_assoc newer (arrived_in node_id c) (arrived node_id cs)) (
        run-Held node_id t older (newer ++ arrived_in node_id c) (step q c) cs s.1
          (omega (arith, (step-config q c).0, same, room))
          (step-Held node_id t older newer q c s.0 (omega (arith, both, same, room)) h))

  -- A task that was enqueued is still pending after any further calls, if none of them acknowledges
  -- it or looks for expired tasks after its deadline, and fewer than `max_depth` tasks were enqueued
  -- for its node since. Those ahead of it are some of the tasks that were pending before it, and those
  -- behind it some of those enqueued since, both in their order.
  pub enqueue-durable :
      (now : ℕ) (node_id task_id : String) (msg : Msg) (q : TaskQueue Msg) (cs : List (Call Msg))
      → All (Spares node_id (queued now task_id msg q)) cs
      → length (arrived node_id cs) < q.max_depth
      → let q' = run (enqueue now node_id task_id msg q).0 cs in
        (ahead : List Msg) × (behind : List Msg) × (pending_for node_id q' ≡ ahead ++ msg ∷ behind)
        × Sublistᴰ ahead (pending_for node_id q)
        × Sublistᴰ behind (arrived node_id cs)
  unfolding pending_for Held enqueue
  enqueue-durable now node_id task_id msg q cs s room =
      let t = queued now task_id msg q in
      let q' = (enqueue now node_id task_id msg q).0 in
      let h =
        run-Held node_id t (pending_for node_id q) [] q' cs s room
          (enqueue-Held now node_id task_id msg q) in
      (
        messages h.ahead,
        messages h.behind,
        ap messages h.split ∙ map-append _ _ _,
        h.from_older,
        h.from_newer,
      )
