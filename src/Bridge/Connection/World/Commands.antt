-- ===== src/Bridge/Connection/World/Commands.antt =====
-- The commands that the tasks of a queue of peat-sapient/src/task_queue.rs stand for.
use mathlib.Core.List.{map-append}
use peat_sapient.Base.{
  retain-append, ℕ, String, Bool, true, false, not, ◌≡◌, refl, none, some, List, [], ◌∷◌, ◌++◌, map,
  drop, retain, str_eq, eq_iff, eq_refl, arith, if◌then◌else◌, inl, inr, Bool-cases, unwrap_or,
}
use peat_sapient.Base.Dict
use peat_sapient.Base.Dict.{Dict, get-insert, get-remove}
use peat_sapient.TaskQueue.{
  QueuedTask, TaskQueue, queue_of, enqueue, make_room, ack, drain_expired, has_other_id,
}
use peat_sapient.TaskQueue.Queues.{queue_of-enqueue, queue_of-ack, surplus}
use peat_sapient.TaskQueue.Expiry.{is_fresh, all_tasks, drain-partition}
use peat_sapient.Bridge.State.{discard}
use peat_sapient.Bridge.Outbound.Tasks.{mem, get-discard}

mem-append :
    (k : String) (xs ys : List String) → mem k (xs ++ ys) ≡ (if mem k xs then true else mem k ys)
mem-append k [] ys = refl
mem-append k (x ∷ xs) ys = ground (arith, mem-append k xs ys)

pub found :
    (k c : String) (gone : List String) (cmds : Dict String)
    → Dict.get k (discard gone cmds) ≡ some c
    → (mem k gone ≡ false) × (Dict.get k cmds ≡ some c)
found k c gone cmds e = ground (arith, get-discard k gone cmds)

module _ {Msg : Type 0} where
  abbrev pub ids : List (QueuedTask Msg) → List String
  ids = map (λ t. t.task_id)

  mem-split :
      (k : String) (p : QueuedTask Msg → Bool) (ts : List (QueuedTask Msg))
      → mem k (ids ts) ≡ true
      → mem k (ids (retain (λ t. not (p t)) ts)) ≡ false
      → mem k (ids (retain p ts)) ≡ true
  mem-split k p [] h g = h
  mem-split k p (t ∷ ts) h g = ground (arith, mem-split k p ts)

  -- A task of the queue of one node is a task of all.
  mem-all_tasks :
      (k j : String) (p : QueuedTask Msg → Bool) (m : Dict (List (QueuedTask Msg)))
      → mem k (ids (retain p (all_tasks m))) ≡ false
      → mem k (ids (retain p (unwrap_or [] (Dict.get j m)))) ≡ false
  unfolding Dict.get
  mem-all_tasks k j p [] h = refl
  mem-all_tasks k j p ((i, ts) ∷ m) h =
      let both : (if mem k (ids (retain p ts)) then true else mem k (ids (retain p (all_tasks m))))
          ≡ false =
        rw
          (
            ← mem-append k (ids (retain p ts)) (ids (retain p (all_tasks m))),
            ← map-append (λ t. t.task_id) (retain p ts) (retain p (all_tasks m)),
            ← retain-append p ts (all_tasks m),
          )
          h in
      elim (Bool-cases (str_eq i j)) [
        | inl e ↦ rw e (ground arith)
        | inr e ↦ rw e (mem-all_tasks k j p m (ground arith))
      ]

  -- Every command stands for a task that is pending at some node.
  abbrev pub AllPending : Dict String → TaskQueue Msg → Type 0
  AllPending cmds q =
      (k c : String) → Dict.get k cmds ≡ some c → (j : String) × (mem k (ids (queue_of j q)) ≡ true)

  pub drain-AllPending :
      (now : ℕ) (cmds : Dict String) (q : TaskQueue Msg)
      → AllPending cmds q
      → let (q', expired) = drain_expired now q in AllPending (discard expired cmds) q'
  unfolding queue_of Dict.get
  drain-AllPending now cmds q h k c e =
      let parts = drain-partition now q in
      let left = found k c (drain_expired now q).1 cmds e in
      let (j, held) = h k c left.1 in
      (
        j,
        rw (parts.0 j) (
            mem-split k (is_fresh now) (queue_of j q) held
              (mem-all_tasks k j (λ t. not (is_fresh now t)) q.queues (rw parts.2 at left.0))),
      )

  mem-others :
      (k id : String) (ts : List (QueuedTask Msg))
      → str_eq id k ≡ false
      → mem k (ids (retain (has_other_id id) ts)) ≡ mem k (ids ts)
  unfolding has_other_id
  mem-others k id [] h = refl
  mem-others k id (t ∷ ts) h =
      ground (arith, eq_iff t.task_id id, eq_iff t.task_id k, eq_iff id k, mem-others k id ts h)

  pub ack-AllPending :
      (node_id id : String) (cmds : Dict String) (q : TaskQueue Msg)
      → AllPending cmds q
      → AllPending (Dict.remove id cmds) (ack node_id id q)
  ack-AllPending node_id id cmds q h k c e =
      let left : (str_eq id k ≡ false) × (Dict.get k cmds ≡ some c) =
        ground (arith, get-remove k id cmds) in
      let (j, held) = h k c left.1 in
      (
        j,
        rw queue_of-ack (elim (Bool-cases (str_eq node_id j)) [
          | inl e' ↦ rw (e', mem-others k id (queue_of j q) left.0) held
          | inr e' ↦ rw e' held
        ]),
      )

  mem-make_room :
      (k : String) (d : ℕ) (ts : List (QueuedTask Msg))
      → mem k (ids ts) ≡ true
      → mem k (elim (make_room d ts).0 [ none ↦ [] | some i ↦ i ∷ [] ]) ≡ false
      → mem k (ids (drop (surplus d ts) ts)) ≡ true
  unfolding make_room
  mem-make_room k d [] h g = cc
  mem-make_room k d (t ∷ ts) h g = ground arith

  pub enqueue-AllPending :
      (now : ℕ) (node_id id : String) (msg : Msg) (cmds : Dict String) (q : TaskQueue Msg)
      → ((k c : String)
          → Dict.get k cmds ≡ some c
          → str_eq id k ≡ false
          → (j : String) × (mem k (ids (queue_of j q)) ≡ true))
      → let (q', evicted) = enqueue now node_id id msg q in
        AllPending (discard (elim evicted [ none ↦ [] | some i ↦ i ∷ [] ]) cmds) q'
  unfolding enqueue
  enqueue-AllPending now node_id id msg cmds q h k c e =
      let gone : List String = elim (make_room q.max_depth (queue_of node_id q)).0 [
        | none ↦ []
        | some i ↦ i ∷ []
      ] in
      let left = found k c gone cmds e in
      elim (Bool-cases (str_eq id k)) [
        | inl same ↦ (
          node_id,
          rw
              (
                queue_of-enqueue now node_id node_id id msg q,
                eq_refl node_id,
                map-append,
                mem-append,
              )
              (ground (arith, same)),
        )
        | inr other ↦
            let (j, held) = h k c left.1 other in
            (
              j,
              rw (queue_of-enqueue now node_id j id msg q) (elim (Bool-cases (str_eq node_id j)) [
                | inl e' ↦
                    let kept =
                      mem-make_room k q.max_depth (queue_of j q) held
                        (rw ((eq_iff node_id j).0 e') at left.0) in
                    rw (e', map-append, mem-append, (eq_iff node_id j).0 e', kept)
                | inr e' ↦ rw e' held
              ]),
            )
      ]
