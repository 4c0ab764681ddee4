-- ===== src/Bridge/Connection/Acks/Fresh.antt =====
-- Tasks of peat-sapient/src/task_queue.rs that have another identifier than a given one.
use peat_sapient.Base.{
  ℕ, String, Bool, false, ◌≡◌, ◌≢◌, refl, none, some, List, [], ◌∷◌, ◌++◌, map, drop, retain,
  eq_iff, arith, unwrap_or, All,
}
use peat_sapient.Base.Dict
use peat_sapient.Base.Dict.{Dict, get-insert, get-remove}
use peat_sapient.TaskQueue.{QueuedTask, make_room}
use peat_sapient.TaskQueue.Queues.{surplus}
use peat_sapient.TaskQueue.Expiry.{all_tasks}
use peat_sapient.Bridge.Outbound.Tasks.{mem}

pub mem-append :
    (id : String) (xs ys : List String)
    → mem id xs ≡ false
    → mem id ys ≡ false
    → mem id (xs ++ ys) ≡ false
mem-append id [] ys h k = k
mem-append id (x ∷ xs) ys h k = ground (arith, mem-append id xs ys)

module _ {Msg : Type 0} where
  -- No task of the list has the identifier.
  abbrev pub Others : String → List (QueuedTask Msg) → Type 0
  Others id ts = All (λ t. t.task_id ≢ id) ts

  pub retain-Others :
      (id : String) (p : QueuedTask Msg → Bool) (ts : List (QueuedTask Msg))
      → Others id ts
      → Others id (retain p ts)
  retain-Others id p [] h = tt
  retain-Others id p (t ∷ ts) h = ground (arith, retain-Others id p ts h.1)

  pub drop-Others :
      (id : String) (d : ℕ) (ts : List (QueuedTask Msg))
      → Others id ts
      → Others id (drop (surplus d ts) ts)
  drop-Others id d [] h = ground arith
  drop-Others id d (t ∷ ts) h = ground arith

  pub append-Others :
      (id : String) (ts us : List (QueuedTask Msg))
      → Others id (ts ++ us)
      → Others id ts × Others id us
  append-Others id [] us h = (tt, h)
  append-Others id (t ∷ ts) us h = ground (arith, append-Others id ts us h.1)

  pub queue_of-Others :
      (id j : String) (m : Dict (List (QueuedTask Msg)))
      → Others id (all_tasks m)
      → Others id (unwrap_or [] (Dict.get j m))
  unfolding Dict.get
  queue_of-Others id j [] h = tt
  queue_of-Others id j ((i, ts) ∷ m) h =
      ground (arith, append-Others id ts (all_tasks m) h, queue_of-Others id j m)

  pub mem-Others :
      (id : String) (ts : List (QueuedTask Msg))
      → Others id ts
      → mem id (map (λ t. t.task_id) ts) ≡ false
  mem-Others id [] h = refl
  mem-Others id (t ∷ ts) h = ground (arith, eq_iff t.task_id id, mem-Others id ts)

  pub evicted-Others :
      (id : String) (d : ℕ) (ts : List (QueuedTask Msg))
      → Others id ts
      → mem id (elim (make_room d ts).0 [ none ↦ [] | some i ↦ i ∷ [] ]) ≡ false
  unfolding make_room
  evicted-Others id d [] h = ground arith
  evicted-Others id d (t ∷ ts) h = ground (arith, eq_iff t.task_id id)
