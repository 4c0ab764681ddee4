-- ===== src/Mesh/Transport/Lifecycle.antt =====
-- The life of a started DLMM transport of peat-mesh-sapient/src/transport.rs: where its one connect
-- loop stands, and who owns the receiver of the outbound channel.
use peat_sapient.Base.{
  ℕ, zero, suc, String, ◌≡◌, ◌≢◌, refl, ap, ◌∙◌, true, false, some, List, [], ◌∷◌, ◌++◌, arith,
  ◌==◌, ==_iff, length, Bool-cases, Option-cases, inl, inr,
}
use peat_sapient.Base.Dict
use peat_sapient.Base.Dict.{Dict, get-insert, get-remove}
use peat_sapient.Mesh.Transport.{
  PeerRecord, Link, dialling, ended, serving, Receiver, with_loop, returned, dropped, with_link,
  Transport, get_elem?, update, buffered,
}
use peat_sapient.Mesh.Transport.Peers.{abort_link, drop_from_link}
use peat_sapient.Mesh.Transport.Loops.{close_link, return_from_link}

module _ {ℓ} {A : Type ℓ} where
  get_elem?-update_ne :
      (x i : ℕ) (f : A → A) (xs : List A) → x ≢ i → get_elem? (update x f xs) i ≡ get_elem? xs i
  get_elem?-update_ne x i f [] h = refl
  get_elem?-update_ne zero zero f (y ∷ ys) h = absurd (h refl)
  get_elem?-update_ne zero (suc i) f (y ∷ ys) h = refl
  get_elem?-update_ne (suc x) zero f (y ∷ ys) h = refl
  get_elem?-update_ne (suc x) (suc i) f (y ∷ ys) h =
      get_elem?-update_ne x i f ys (λ e. h (ap suc e))

  pub get_elem?-end : (xs : List A) (y : A) → get_elem? (xs ++ y ∷ []) (length xs) ≡ some y
  get_elem?-end [] y = refl
  get_elem?-end (x ∷ xs) y = get_elem?-end xs y

module _ {N : Type 0} (addr peer : String) where
  -- The task of the link runs.
  pub record Works (link : ℕ) (t : Transport N) : Type 0 where
    pub task : Link
    pub at_link : get_elem? t.links link ≡ some task
    pub running : task.running ≡ true

  -- The link runs, and the record of the peer is its record.
  pub record Runs (link : ℕ) (t : Transport N) : Type 0 where
    pub entry : PeerRecord
    pub recorded : Dict.get peer t.peers ≡ some entry
    pub linked : entry.link ≡ link
    pub works : Works link t

  -- The five stages: dialling, connected, the connection lost, the connection taken down, over.
  pub data Stage (t : Transport N) : Type 0 where
    dials : t.loops ≡ dialling ∷ [] → t.receiver ≡ with_loop → t.listener_task ≡ some 0 → Stage t
    serves :
        (link at : ℕ)
        → t.loops ≡ serving link at ∷ []
        → t.receiver ≡ with_link link
        → t.listener_task ≡ some 0
        → Runs link t
        → Stage t
    lost :
        (link at : ℕ)
        → t.loops ≡ serving link at ∷ []
        → t.receiver ≡ returned
        → t.listener_task ≡ some 0
        → Stage t
    taken_down :
        (link at : ℕ)
        → t.loops ≡ serving link at ∷ []
        → t.receiver ≡ dropped
        → t.listener_task ≡ some 0
        → Stage t
    over : t.loops ≡ ended ∷ [] → t.receiver ≡ dropped → Stage t

  -- The last stage.
  pub record IsOver (t : Transport N) : Type 0 where
    pub loops : t.loops ≡ ended ∷ []
    pub receiver : t.receiver ≡ dropped

  pub Works-same : (link : ℕ) (t u : Transport N) → u.links ≡ t.links → Works link t → Works link u
  Works-same link t u k r = record { task = r.task; at_link = rw k r.at_link; running = r.running }

  Works-other :
      (x link : ℕ) (f : Link → Link) (t u : Transport N)
      → u.links ≡ update x f t.links
      → x ≢ link
      → Works link t
      → Works link u
  Works-other x link f t u k ne r = record {
    task = r.task;
    at_link = rw k (get_elem?-update_ne x link f t.links ne ∙ r.at_link);
    running = r.running;
  }

  pub Runs-same :
      (link : ℕ) (t u : Transport N) → u.peers ≡ t.peers → Works link u → Runs link t → Runs link u
  Runs-same link t u p k r = record {
    entry = r.entry;
    recorded = rw p r.recorded;
    linked = r.linked;
    works = k;
  }

  -- What leaves the loops, the links, the records and the receiver alone stays in its stage.
  pub Stage-same :
      (t u : Transport N)
      → u.loops ≡ t.loops
      → u.receiver ≡ t.receiver
      → u.listener_task ≡ t.listener_task
      → u.peers ≡ t.peers
      → u.links ≡ t.links
      → Stage t
      → Stage u
  Stage-same t u a b c d e (dials x y z) = dials (a ∙ x) (b ∙ y) (c ∙ z)
  Stage-same t u a b c d e (serves l at x y z r) =
      serves l at (a ∙ x) (b ∙ y) (c ∙ z) (Runs-same l t u d (Works-same l t u e r.works) r)
  Stage-same t u a b c d e (lost l at x y z) = lost l at (a ∙ x) (b ∙ y) (c ∙ z)
  Stage-same t u a b c d e (taken_down l at x y z) = taken_down l at (a ∙ x) (b ∙ y) (c ∙ z)
  Stage-same t u a b c d e (over x y) = over (a ∙ x) (b ∙ y)

  pub abort_link-frame :
      (x : ℕ) (t : Transport N)
      → ((abort_link x t).loops ≡ t.loops)
        × ((abort_link x t).listener_task ≡ t.listener_task)
        × ((abort_link x t).peers ≡ t.peers)
        × ((abort_link x t).role ≡ t.role)
  unfolding abort_link
  abort_link-frame x t = ground arith

  -- A receiver that no link owns is left where it is.
  pub abort_link-receiver :
      (x : ℕ) (t : Transport N) (r : Receiver)
      → drop_from_link x r ≡ r
      → t.receiver ≡ r
      → (abort_link x t).receiver ≡ r
  unfolding abort_link
  abort_link-receiver x t r same e = ground arith

  pub abort_link-own :
      (x l : ℕ) (t : Transport N)
      → x ≡ l
      → t.receiver ≡ with_link l
      → Works l t
      → (abort_link x t).receiver ≡ dropped
  unfolding abort_link drop_from_link
  abort_link-own x l t same e r = rw same (rw (abort_link, r.at_link, r.running, e) (ground arith))

  pub abort_link-other :
      (x l : ℕ) (t : Transport N)
      → x ≢ l
      → t.receiver ≡ with_link l
      → Works l t
      → ((abort_link x t).receiver ≡ with_link l) × Works l (abort_link x t)
  unfolding abort_link drop_from_link
  abort_link-other x l t ne e r = elim (Option-cases (get_elem? t.links x)) [
    | inl gone ↦ rw (abort_link, gone) (e, r)
    | inr (k, here) ↦ elim (Bool-cases k.running) [
      | inr idle ↦ rw (abort_link, here, idle) (e, r)
      | inl busy ↦
          let stop_it = λ (j : Link). record j { running = false } in
          let u = record t {
            links = update x stop_it t.links;
            receiver = drop_from_link x t.receiver;
            outbound = buffered (drop_from_link x t.receiver) t.outbound;
          } in
          rw (abort_link, here, busy)
            (rw e (ground (arith, ==_iff l x)), Works-other x l stop_it t u refl ne r)
    ]
  ]

  pub close_link-Stage : (x : ℕ) (t : Transport N) → Stage t → Stage (close_link x t)
  unfolding close_link return_from_link
  close_link-Stage x t (dials a b c) = dials a (rw b) c
  close_link-Stage x t (serves l at a b c r) = elim (Bool-cases (l == x)) [
    | inl e ↦ lost l at a (rw (b, e)) c
    | inr e ↦
        let f = λ (k : Link). record k { alive = false; running = false } in
        let u = close_link x t in
        let ne : x ≢ l = λ (q : x ≡ l). ground arith in
        serves l at a (rw (b, e)) c (Runs-same l t u refl (Works-other x l f t u refl ne r.works) r)
  ]
  close_link-Stage x t (lost l at a b c) = lost l at a (rw b) c
  close_link-Stage x t (taken_down l at a b c) = taken_down l at a (rw b) c
  close_link-Stage x t (over a b) = over a (rw b)
