-- ===== src/Examples/Queue.antt =====
-- The task queue and the rate limiter.
use mathlib.Core.List.{Sublistᴰ}
use peat_sapient.Base.{
  ℕ, ◌≤◌, ◌≡◌, refl, none, List, [], ◌∷◌, ◌++◌, map, retain, not, arith, length, String,
}
use peat_sapient.Base.Dict
use peat_sapient.TaskQueue.{
  TaskQueue, Call, new, enqueue, ack, drain_expired, queue_of, pending_for, run, enqueues, acks,
  drains,
}
use peat_sapient.TaskQueue.Bound.{pending-bounded}
use peat_sapient.TaskQueue.Durable.{arrived, enqueue-durable}
use peat_sapient.TaskQueue.Expiry.{is_fresh, all_tasks, drain-partition}
use peat_sapient.RateLimit.{RateLimitConfig}
use peat_sapient.RateLimit
use peat_sapient.RateLimit.Isolation.{Check, answers, private_answers, calls_of, answers-isolated}
use peat_sapient.RateLimit.Burst.{ExactIntegers, first, calls_at, answers-burst}
use peat_sapient.Examples.Setup.{numbers}

abbrev calls : List (Call ℕ)
calls =
    enqueues 0 "radar" "t1" 1
    ∷ enqueues 1 "radar" "t2" 2
    ∷ enqueues 2 "radar" "t3" 3
    ∷ acks "camera" "t3"
    ∷ []

abbrev queue : TaskQueue ℕ
queue = run (new 2 10) calls

pending-bounded_example : length (pending_for "radar" queue) ≤ 2
pending-bounded_example = pending-bounded 2 10 calls "radar"

abbrev later : List (Call ℕ)
later = enqueues 4 "radar" "t5" 5 ∷ enqueues 4 "camera" "t6" 6 ∷ acks "radar" "t5" ∷ drains 12 ∷ []

enqueue-durable_example :
    (ahead : List ℕ) × (behind : List ℕ) × (pending_for "radar"
        (run (enqueue 3 "radar" "t4" 4 queue).0 later)
      ≡ ahead ++ 4 ∷ behind)
    × Sublistᴰ ahead (pending_for "radar" queue)
    × Sublistᴰ behind (arrived "radar" later)
unfolding run new peat_sapient.TaskQueue.step enqueue ack Dict.get Dict.insert
enqueue-durable_example =
    enqueue-durable 3 "radar" "t4" 4 queue later (tt, (tt, (refl, (omega arith, tt)))) (omega arith)

drain-partition_example :
    ((node_id : String)
      → queue_of node_id (drain_expired 12 queue).0 ≡ retain (is_fresh 12) (queue_of node_id queue))
    × (all_tasks (drain_expired 12 queue).0.queues ≡ retain (is_fresh 12) (all_tasks queue.queues))
    × ((drain_expired 12 queue).1
        ≡ map (λ t. t.task_id) (retain (λ t. not (is_fresh 12 t)) (all_tasks queue.queues)))
drain-partition_example = drain-partition 12 queue

abbrev two_at_once : RateLimitConfig numbers
two_at_once = record { max_per_second = 10; burst_size = 2 }

exact : ExactIntegers numbers 10
exact = record {
  no_time = refl;
  no_refill = refl;
  add_zero = λ n h. omega arith;
  sub_one = λ n h. omega arith;
  min_le = λ m n h k. omega arith;
  le_one = λ n h. refl;
}

answers-burst_example :
    answers numbers "radar" (RateLimit.new numbers two_at_once) (calls_at 7 "radar" 3) ≡ first 2 3
unfolding RateLimit.new
answers-burst_example = answers-burst numbers two_at_once 7 "radar" 3 exact (omega arith)

abbrev mixed : List Check
mixed = calls_at 7 "radar" 1 ++ calls_at 8 "camera" 2 ++ calls_at 9 "radar" 2

answers-isolated_example :
    answers numbers "radar" (RateLimit.new numbers two_at_once) mixed
    ≡ private_answers numbers two_at_once none (calls_of "radar" mixed)
unfolding RateLimit.new
answers-isolated_example = answers-isolated numbers two_at_once "radar" mixed refl

abbrev unlimited : RateLimitConfig numbers
unlimited = record { max_per_second = 10; burst_size = 0 }
