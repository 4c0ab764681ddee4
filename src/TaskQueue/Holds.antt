-- ===== src/TaskQueue/Holds.antt =====
-- A task in one queue of peat-sapient/src/task_queue.rs, with what is ahead of it and behind it.
use mathlib.Core.List.{map-append, append_assoc, Sublistᴰ}
use mathlib.Core.List.Sublistᴰ
use peat_sapient.Base.{
  ℕ, zero, suc, ◌+◌, ◌≤◌, ◌<◌, Bool, true, ◌≡◌, refl, List, [], ◌∷◌, ◌++◌, map, arith, leb, length,
  length-map, drop, retain, retain-append, inl, inr, Bool-cases,
}
use peat_sapient.TaskQueue.{QueuedTask}
use peat_sapient.TaskQueue.Queues.{surplus}

length-Sublistᴰ {ℓ} : {A : Type ℓ} {xs ys : List A} → Sublistᴰ xs ys → length xs ≤ length ys
length-Sublistᴰ Sublistᴰ.slnil = omega arith
length-Sublistᴰ (Sublistᴰ.cons s) = omega (arith, length-Sublistᴰ s)
length-Sublistᴰ (Sublistᴰ.cons-cons e s) = omega (arith, length-Sublistᴰ s)

module _ {Msg : Type 0} where
  abbrev pub messages : List (QueuedTask Msg) → List Msg
  messages ts = map (λ t. t.msg) ts

  messages-retain :
      (p : QueuedTask Msg → Bool) (ts : List (QueuedTask Msg))
      → Sublistᴰ (messages (retain p ts)) (messages ts)
  messages-retain p [] = Sublistᴰ.slnil
  messages-retain p (t ∷ ts) = elim (Bool-cases (p t)) [
    | inl e ↦ rw e (Sublistᴰ.cons-cons refl (messages-retain p ts))
    | inr e ↦ rw e (Sublistᴰ.cons (messages-retain p ts))
  ]

  -- The task is in the list, and those ahead of it and behind it are some of these, in their order.
  pub record Holds (t : QueuedTask Msg) (older newer : List Msg) (ts : List (QueuedTask Msg))
      : Type 0 where
    pub ahead : List (QueuedTask Msg)
    pub behind : List (QueuedTask Msg)
    pub split : ts ≡ ahead ++ t ∷ behind
    pub from_older : Sublistᴰ (messages ahead) older
    pub from_newer : Sublistᴰ (messages behind) newer

  pub append-Holds :
      (t new : QueuedTask Msg) {older newer : List Msg} {ts : List (QueuedTask Msg)}
      → Holds t older newer ts
      → Holds t older (newer ++ new.msg ∷ []) (ts ++ new ∷ [])
  append-Holds t new h = record {
    ahead = h.ahead;
    behind = h.behind ++ new ∷ [];
    split = rw h.split (append_assoc h.ahead (t ∷ h.behind) (new ∷ []));
    from_older = h.from_older;
    from_newer = rw map-append (Sublistᴰ.append h.from_newer (Sublistᴰ.refl (new.msg ∷ [])));
  }

  tail-Sublistᴰ : (x : Msg) {xs ys : List Msg} → Sublistᴰ (x ∷ xs) ys → Sublistᴰ xs ys
  tail-Sublistᴰ x {xs} s = Sublistᴰ.trans (Sublistᴰ.cons (Sublistᴰ.refl xs)) s

  drop-split :
      (d : ℕ) (t : QueuedTask Msg) {older newer : List Msg} {ts : List (QueuedTask Msg)}
      (ahead behind : List (QueuedTask Msg))
      → length newer + 1 < d
      → ts ≡ ahead ++ t ∷ behind
      → Sublistᴰ (messages ahead) older
      → Sublistᴰ (messages behind) newer
      → Holds t older newer (drop (surplus d ts) ts)
  drop-split d t [] behind room e o n =
      let few = length-Sublistᴰ n in
      record {
        ahead = [];
        behind = behind;
        split = rw e (ground (arith, few, length-map (λ (u : QueuedTask Msg). u.msg) behind));
        from_older = o;
        from_newer = n;
      }
  drop-split d t (x ∷ ahead) behind room e o n =
      elim (Bool-cases (leb d (length (x ∷ ahead ++ t ∷ behind)))) [
        | inl full ↦ record {
          ahead = ahead;
          behind = behind;
          split = rw (e, full);
          from_older = tail-Sublistᴰ x.msg o;
          from_newer = n;
        }
        | inr spare ↦ record {
          ahead = x ∷ ahead;
          behind = behind;
          split = rw (e, spare);
          from_older = o;
          from_newer = n;
        }
      ]

  pub drop-Holds :
      (d : ℕ) (t : QueuedTask Msg) {older newer : List Msg} {ts : List (QueuedTask Msg)}
      → length newer + 1 < d
      → Holds t older newer ts
      → Holds t older newer (drop (surplus d ts) ts)
  drop-Holds d t room h = drop-split d t h.ahead h.behind room h.split h.from_older h.from_newer

  pub retain-Holds :
      (p : QueuedTask Msg → Bool) (t : QueuedTask Msg) {older newer : List Msg}
      {ts : List (QueuedTask Msg)}
      → p t ≡ true
      → Holds t older newer ts
      → Holds t older newer (retain p ts)
  retain-Holds p t keep h = record {
    ahead = retain p h.ahead;
    behind = retain p h.behind;
    split = rw (h.split, retain-append, keep);
    from_older = Sublistᴰ.trans (messages-retain p h.ahead) h.from_older;
    from_newer = Sublistᴰ.trans (messages-retain p h.behind) h.from_newer;
  }

  pub drop-Sublistᴰ :
      (n : ℕ) (ts : List (QueuedTask Msg)) → Sublistᴰ (messages (drop n ts)) (messages ts)
  drop-Sublistᴰ zero ts = Sublistᴰ.refl (messages ts)
  drop-Sublistᴰ (suc n) [] = Sublistᴰ.slnil
  drop-Sublistᴰ (suc n) (t ∷ ts) = Sublistᴰ.cons (drop-Sublistᴰ n ts)
