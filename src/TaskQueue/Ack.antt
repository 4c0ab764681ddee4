-- ===== src/TaskQueue/Ack.antt =====
-- Acknowledgements in peat-sapient/src/task_queue.rs.
use mathlib.Core.List.{append-nil}
use peat_sapient.Base.{
  ℕ, ◌<◌, String, ◌≡◌, ◌≢◌, refl, ap, ◌∙◌, drop, List, [], ◌∷◌, ◌++◌, arith, str_eq, eq_iff, length,
  All, retain, retain-append, retain_idem, inl, inr, Bool-cases,
}
use peat_sapient.TaskQueue.{QueuedTask, TaskQueue, queue_of, enqueue, has_other_id, ack}
use peat_sapient.TaskQueue.Queues.{queue_of-enqueue, queue_of-ack, queued, surplus}

module _ {Msg : Type 0} where
  pub retain_others :
      (id : String) (ts : List (QueuedTask Msg))
      → All (λ t. t.task_id ≢ id) ts
      → retain (has_other_id id) ts ≡ ts
  unfolding has_other_id
  retain_others id [] h = refl
  retain_others id (t ∷ ts) h = ground (arith, eq_iff t.task_id id, retain_others id ts h.1)

  -- An acknowledgement that arrives twice changes nothing the second time, for any node.
  pub ack-ack :
      (k j id : String) (q : TaskQueue Msg)
      → queue_of j (ack k id (ack k id q)) ≡ queue_of j (ack k id q)
  ack-ack k j id q =
      rw (queue_of-ack k j id (ack k id q), queue_of-ack k j id q)
        (elim (Bool-cases (str_eq k j)) [
          | inl e ↦ rw e (retain_idem (has_other_id id) (queue_of j q))
          | inr e ↦ rw e
        ])

  acked-appended :
      (id : String) (d : ℕ) (ts : List (QueuedTask Msg)) (t : QueuedTask Msg)
      → All (λ u. u.task_id ≢ id) ts
      → length ts < d
      → t.task_id ≡ id
      → retain (has_other_id id) (drop (surplus d ts) ts ++ t ∷ []) ≡ ts
  unfolding has_other_id
  acked-appended id d ts t fresh room same = ground (
    arith,
    retain-append (has_other_id id) ts (t ∷ []),
    retain_others id ts fresh,
    append-nil ts,
    eq_iff t.task_id id,
  )

  -- Where the node has room and no pending task of that identifier, enqueueing a task and
  -- acknowledging it leaves the queues of all nodes as they were.
  pub ack-enqueue :
      (now : ℕ) (k j id : String) (msg : Msg) (q : TaskQueue Msg)
      → All (λ t. t.task_id ≢ id) (queue_of k q)
      → length (queue_of k q) < q.max_depth
      → queue_of j (ack k id (enqueue now k id msg q).0) ≡ queue_of j q
  ack-enqueue now k j id msg q fresh room =
      rw (queue_of-ack k j id (enqueue now k id msg q).0, queue_of-enqueue now k j id msg q)
        (elim (Bool-cases (str_eq k j)) [
          | inl e ↦ rw e (
              acked-appended id q.max_depth (queue_of k q) (queued now id msg q) fresh room refl
              ∙ ap (λ i. queue_of i q) ((eq_iff k j).0 e))
          | inr e ↦ rw e
        ])
