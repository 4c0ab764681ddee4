-- ===== src/TaskQueue/Queues.antt =====
-- What each operation of peat-sapient/src/task_queue.rs does to the queue of each node.
use peat_sapient.Base.{
  ℕ, String, not, ◌≡◌, refl, ap, List, [], ◌∷◌, ◌++◌, arith, str_eq, eq_iff, leb, if◌then◌else◌,
  length, drop, retain, unwrap_or, inl, inr, Bool-cases, Option-cases, is_empty,
}
use peat_sapient.Base.Dict
use peat_sapient.Base.Dict.{Dict, get-insert}
use peat_sapient.TaskQueue.{
  QueuedTask, TaskQueue, queue_of, make_room, enqueue, has_other_id, ack, is_expired, drain_queues,
  drain_expired, pending_for, is_empty_for, Call, step, enqueues, acks, drains,
}

module _ {Msg : Type 0} where
  -- The task that `enqueue` makes of its arguments.
  abbrev pub queued : ℕ → String → Msg → TaskQueue Msg → QueuedTask Msg
  queued now task_id msg q = record {
    msg = msg;
    task_id = task_id;
    enqueued_at = now;
    ttl = q.default_ttl;
  }

  -- How many of the oldest tasks give way to a new one.
  abbrev pub surplus : ℕ → List (QueuedTask Msg) → ℕ
  surplus max_depth ts = if leb max_depth (length ts) then 1 else 0

  make_room-drop :
      (d : ℕ) (ts : List (QueuedTask Msg)) → (make_room d ts).1 ≡ drop (surplus d ts) ts
  unfolding make_room
  make_room-drop d [] = ground arith
  make_room-drop d (t ∷ ts) = ground arith

  pub queue_of-enqueue :
      (now : ℕ) (k j task_id : String) (msg : Msg) (q : TaskQueue Msg)
      → let ts = queue_of k q in
        queue_of j (enqueue now k task_id msg q).0 ≡ (
          if str_eq k j
          then drop (surplus q.max_depth ts) ts ++ queued now task_id msg q ∷ []
          else queue_of j q)
  unfolding queue_of enqueue
  queue_of-enqueue now k j task_id msg q = rw (get-insert j k) (elim (Bool-cases (str_eq k j)) [
    | inl e ↦
        rw e (
          ap (λ ts. ts ++ queued now task_id msg q ∷ [])
            (make_room-drop q.max_depth (queue_of k q)))
    | inr e ↦ rw e
  ])

  pub queue_of-ack :
      (k j task_id : String) (q : TaskQueue Msg)
      → queue_of j (ack k task_id q)
        ≡ (if str_eq k j then retain (has_other_id task_id) (queue_of j q) else queue_of j q)
  unfolding queue_of ack
  queue_of-ack k j task_id q = elim (Option-cases (Dict.get k q.queues)) [
    | inl e ↦ ground (arith, eq_iff k j)
    | inr (ts, e) ↦
        ground (arith, eq_iff k j, get-insert j k (retain (has_other_id task_id) ts) q.queues)
  ]

  ack-config :
      (k task_id : String) (q : TaskQueue Msg)
      → ((ack k task_id q).max_depth ≡ q.max_depth)
        × ((ack k task_id q).default_ttl ≡ q.default_ttl)
  unfolding ack
  ack-config k task_id q = elim (Option-cases (Dict.get k q.queues)) [
    | inl e ↦ rw (e, ack) (refl, refl)
    | inr (ts, e) ↦ rw (e, ack) (refl, refl)
  ]

  get-drain_queues :
      (now : ℕ) (j : String) (m : Dict (List (QueuedTask Msg)))
      → unwrap_or [] (Dict.get j (drain_queues now m).0)
        ≡ retain (λ t. not (is_expired now t)) (unwrap_or [] (Dict.get j m))
  unfolding drain_queues Dict.get
  get-drain_queues now j [] = refl
  get-drain_queues now j ((i, ts) ∷ m) = elim (Bool-cases (str_eq i j)) [
    | inl e ↦ rw e
    | inr e ↦ rw e (get-drain_queues now j m)
  ]

  pub queue_of-drain :
      (now : ℕ) (j : String) (q : TaskQueue Msg)
      → queue_of j (drain_expired now q).0 ≡ retain (λ t. not (is_expired now t)) (queue_of j q)
  unfolding queue_of drain_expired
  queue_of-drain now j q = get-drain_queues now j q.queues

  -- The depth and the lifetime are fixed when the queue is made.
  pub step-config :
      (q : TaskQueue Msg) (c : Call Msg)
      → ((step q c).max_depth ≡ q.max_depth) × ((step q c).default_ttl ≡ q.default_ttl)
  unfolding step enqueue drain_expired
  step-config q (enqueues now k task_id msg) = (refl, refl)
  step-config q (acks k task_id) = ack-config k task_id q
  step-config q (drains now) = (refl, refl)

  -- `is_empty_for` answers for the very list that `pending_for` returns.
  pub is_empty_for-pending :
      (j : String) (q : TaskQueue Msg) → is_empty_for j q ≡ is_empty (pending_for j q)
  unfolding is_empty_for pending_for
  is_empty_for-pending j q = elim (Option-cases (Dict.get j q.queues)) [
    | inl e ↦ rw (e, is_empty_for)
    | inr ([], e) ↦ rw (e, is_empty_for)
    | inr (t ∷ ts, e) ↦ rw (e, is_empty_for)
  ]
