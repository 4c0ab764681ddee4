-- ===== src/TaskQueue/Bound.antt =====
-- The depth of the queues of peat-sapient/src/task_queue.rs.
use Prim.Native.Nat.{max}
use peat_sapient.Base.{
  ℕ, ◌≤◌, String, not, ◌≡◌, refl, List, [], ◌∷◌, ◌++◌, arith, str_eq, length, length-append,
  length-retain-le, drop, inl, inr, Bool-cases, length-map, ◌∙◌,
}
use native.Mathlib.Nat.{le_trans}
use peat_sapient.Base.Dict
use peat_sapient.TaskQueue.{
  QueuedTask, TaskQueue, Call, new, queue_of, pending_for, step, run, enqueues, acks, drains,
  has_other_id, is_expired,
}
use peat_sapient.TaskQueue.Queues.{
  queue_of-enqueue, queue_of-ack, queue_of-drain, surplus, step-config,
}

module _ {Msg : Type 0} where
  abbrev IsBounded : ℕ → TaskQueue Msg → Type 0
  IsBounded d q = (q.max_depth ≡ d) × ((j : String) → length (queue_of j q) ≤ max 1 d)

  drop-surplus :
      (n d : ℕ) (ts : List (QueuedTask Msg)) (t : QueuedTask Msg)
      → n ≡ d
      → length ts ≤ max 1 d
      → length (drop (surplus n ts) ts ++ t ∷ []) ≤ max 1 d
  drop-surplus n d [] t e h = ground arith
  drop-surplus n d (x ∷ ts) t e h =
      ground (arith, length-append ts (t ∷ []), length-append (x ∷ ts) (t ∷ []))

  step-IsBounded :
      (d : ℕ) (q : TaskQueue Msg) (c : Call Msg) → IsBounded d q → IsBounded d (step q c)
  unfolding step
  step-IsBounded d q (enqueues now k task_id msg) h = (
    (step-config q (enqueues now k task_id msg)).0 ∙ h.0,
    λ j. rw queue_of-enqueue (elim (Bool-cases (str_eq k j)) [
      | inl e ↦ rw e (drop-surplus q.max_depth d (queue_of k q) _ h.0 (h.1 k))
      | inr e ↦ rw e (h.1 j)
    ]),
  )
  step-IsBounded d q (acks k task_id) h = (
    (step-config q (acks k task_id)).0 ∙ h.0,
    λ j. rw queue_of-ack (elim (Bool-cases (str_eq k j)) [
      | inl e ↦ rw e (le_trans (length-retain-le (has_other_id task_id) (queue_of j q)) (h.1 j))
      | inr e ↦ rw e (h.1 j)
    ]),
  )
  step-IsBounded d q (drains now) h = (
    (step-config q (drains now)).0 ∙ h.0,
    λ j.
        rw queue_of-drain
          (le_trans (length-retain-le (λ t. not (is_expired now t)) (queue_of j q)) (h.1 j)),
  )

  run-IsBounded :
      (d : ℕ) (q : TaskQueue Msg) (cs : List (Call Msg)) → IsBounded d q → IsBounded d (run q cs)
  unfolding run
  run-IsBounded d q [] h = h
  run-IsBounded d q (c ∷ cs) h = run-IsBounded d (step q c) cs (step-IsBounded d q c h)

  -- After any history of calls, from an empty queue of depth `d`, no node has more than
  -- `max 1 d` pending tasks: `d` of them, except that a depth of 0 still holds one task.
  pub pending-bounded :
      (d ttl : ℕ) (cs : List (Call Msg)) (node_id : String)
      → length (pending_for node_id (run (new d ttl) cs)) ≤ max 1 d
  unfolding pending_for new Dict.get
  pending-bounded d ttl cs node_id =
      rw length-map ((run-IsBounded d (new d ttl) cs (refl, λ j. omega arith)).1 node_id)
