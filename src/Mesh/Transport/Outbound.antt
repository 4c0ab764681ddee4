-- ===== src/Mesh/Transport/Outbound.antt =====
-- The operations of peat-mesh-sapient/src/transport.rs that send and write nothing, and the outbound
-- channel.
use peat_sapient.Base.{
  ℕ, String, ◌≡◌, refl, Bool, true, false, Option, none, some, List, [], ◌∷◌, Bool-cases,
  Option-cases, inl, inr, ◌⊎◌, ◌∙◌, ◌==◌, is_some,
}
use peat_sapient.Base.Dict
use peat_sapient.Base.Dict.{Dict}
use peat_sapient.Error.{Result, ok, err}
use peat_sapient.Mesh.Transport.{
  SapientRole, hldmm, dlmm, PeerRecord, LoopState, binding, accepting, dialling, ended, serving,
  Receiver, held, with_loop, returned, dropped, with_link, Transport, update, get_elem?, buffered,
}
use peat_sapient.Mesh.Transport.Peers.{
  abort_link, abort_loop, abort_all, abort_record, register_peer, deregister_peer, disconnect, stop,
  emit_event, drop_from_link, drop_from_loop,
}
use peat_sapient.Mesh.Transport.Loops.{
  Sent, discarded, accepted, waiting, closed, start, start_as, start_dlmm, spawn, bound_in,
  accepted_in, dialled_in, dialled_with, resumed_in, resumed_with,
}

abbrev pub taken : Sent → List ℕ → List (List ℕ)
taken accepted bytes = bytes ∷ []
taken discarded bytes = []
taken waiting bytes = []
taken closed bytes = []

abbrev pub is_dropped : Receiver → Bool
is_dropped dropped = true
is_dropped held = false
is_dropped with_loop = false
is_dropped returned = false
is_dropped (with_link l) = false

-- The channel whose receiver was the first is as it was, or it is dropped and empty.
abbrev Kept : Receiver → Receiver → List (List ℕ) → Type 0
Kept r r' queue =
    ((buffered r' queue ≡ queue) × (is_dropped r' ≡ is_dropped r))
    ⊎ ((buffered r' queue ≡ []) × (is_dropped r' ≡ true))

link-Kept : (link : ℕ) (r : Receiver) (queue : List (List ℕ)) → Kept r (drop_from_link link r) queue
unfolding drop_from_link buffered
link-Kept link held queue = inl (refl, refl)
link-Kept link with_loop queue = inl (refl, refl)
link-Kept link returned queue = inl (refl, refl)
link-Kept link dropped queue = inr (refl, refl)
link-Kept link (with_link l) queue = elim (Bool-cases (l == link)) [
  | inl e ↦ rw (e) (inr (refl, refl))
  | inr e ↦ rw (e) (inl (refl, refl))
]

loop-Kept : (r : Receiver) (queue : List (List ℕ)) → Kept r (drop_from_loop r) queue
unfolding drop_from_loop buffered
loop-Kept held queue = inl (refl, refl)
loop-Kept with_loop queue = inr (refl, refl)
loop-Kept returned queue = inr (refl, refl)
loop-Kept dropped queue = inr (refl, refl)
loop-Kept (with_link l) queue = inl (refl, refl)

module _ {N : Type 0} where
  -- Nothing goes into the channel or out of it, unless its receiver is dropped: then it is empty.
  abbrev pub Still : Transport N → Transport N → Type 0
  Still t u =
      (u.writes ≡ t.writes)
      × (((u.outbound ≡ t.outbound) × (is_dropped u.receiver ≡ is_dropped t.receiver))
          ⊎ ((u.outbound ≡ []) × (is_dropped u.receiver ≡ true)))

  Still-same : (t : Transport N) → Still t t
  Still-same t = (refl, inl (refl, refl))

  Still-trans : (t u v : Transport N) → Still t u → Still u v → Still t v
  Still-trans t u v (a, inl (b, c)) (x, inl (y, z)) = (x ∙ a, inl (y ∙ b, z ∙ c))
  Still-trans t u v (a, inr (b, c)) (x, inl (y, z)) = (x ∙ a, inr (y ∙ b, z ∙ c))
  Still-trans t u v (a, b) (x, inr (y, z)) = (x ∙ a, inr (y, z))

  abort_link-Still : (link : ℕ) (t : Transport N) → Still t (abort_link link t)
  unfolding abort_link
  abort_link-Still link t = elim (Option-cases (get_elem? t.links link)) [
    | inl gone ↦ rw (abort_link, gone) (Still-same t)
    | inr (l, here) ↦ elim (Bool-cases l.running) [
      | inl busy ↦ rw (abort_link, here, busy) (refl, link-Kept link t.receiver t.outbound)
      | inr idle ↦ rw (abort_link, here, idle) (Still-same t)
    ]
  ]

  abort_all-Still : (peers : Dict PeerRecord) (t : Transport N) → Still t (abort_all peers t)
  unfolding abort_all
  abort_all-Still [] t = Still-same t
  abort_all-Still ((p, r) ∷ rest) t =
      Still-trans t (abort_link r.link t) (abort_all rest (abort_link r.link t))
        (abort_link-Still r.link t) (abort_all-Still rest (abort_link r.link t))

  abort_loop-Still : (id : Option ℕ) (t : Transport N) → Still t (abort_loop id t)
  unfolding abort_loop
  abort_loop-Still none t = Still-same t
  abort_loop-Still (some id) t = (refl, loop-Kept t.receiver t.outbound)

  pub stop-Still : (t : Transport N) → Still t (stop t)
  unfolding stop
  stop-Still t =
      let aborted = abort_loop t.listener_task (record t { listener_task = none }) in
      Still-trans t aborted (abort_all t.peers (record aborted { peers = [] }))
        (abort_loop-Still t.listener_task (record t { listener_task = none }))
        (abort_all-Still t.peers (record aborted { peers = [] }))

  pub disconnect-Still :
      (capacity : ℕ) (p : String) (now : ℕ) (t : Transport N)
      → Still t (disconnect capacity p now t).1
  unfolding disconnect emit_event
  disconnect-Still capacity p now t = elim (Option-cases (Dict.get p t.peers)) [
    | inl e ↦ rw (e, disconnect) (Still-same t)
    | inr (r, e) ↦
        rw (e, disconnect) (abort_link-Still r.link (record t { peers = Dict.remove p t.peers }))
  ]

  deregister_peer-Still :
      (capacity : ℕ) (p : String) (at now : ℕ) (t : Transport N)
      → Still t (deregister_peer capacity p at now t)
  unfolding deregister_peer emit_event abort_record
  deregister_peer-Still capacity p at now t = elim (Option-cases (Dict.get p t.peers)) [
    | inl e ↦ rw (e, abort_record) (Still-same t)
    | inr (r, e) ↦
        rw (e, abort_record) (abort_link-Still r.link (record t { peers = Dict.remove p t.peers }))
  ]

  start_dlmm-Still :
      (r : Receiver) (now : ℕ) (t : Transport N) → t.receiver ≡ r → Still t (start_dlmm r now t).1
  unfolding start_dlmm spawn
  start_dlmm-Still held now t e = (refl, inl (refl, rw e))
  start_dlmm-Still with_loop now t e = Still-same t
  start_dlmm-Still returned now t e = Still-same t
  start_dlmm-Still dropped now t e = Still-same t
  start_dlmm-Still (with_link l) now t e = Still-same t

  start_as-Still :
      (role : SapientRole) (now : ℕ) (t : Transport N) → Still t (start_as role now t).1
  unfolding start_as spawn
  start_as-Still (hldmm a) now t = (refl, inl (refl, refl))
  start_as-Still (dlmm a p) now t = start_dlmm-Still t.receiver now t refl

  pub start-Still : (now : ℕ) (t : Transport N) → Still t (start now t).1
  unfolding start
  start-Still now t = start_as-Still t.role now t

  pub bound_in-Still :
      (l : LoopState) (id : ℕ) (b : Bool) (t : Transport N) → Still t (bound_in l id b t)
  unfolding bound_in
  bound_in-Still binding id b t = (refl, inl (refl, refl))
  bound_in-Still accepting id b t = Still-same t
  bound_in-Still dialling id b t = Still-same t
  bound_in-Still ended id b t = Still-same t
  bound_in-Still (serving k at) id b t = Still-same t

  pub accepted_in-Still :
      (l : LoopState) (capacity : ℕ) (p : Result String) (now : ℕ) (t : Transport N)
      → Still t (accepted_in l capacity p now t)
  unfolding accepted_in register_peer emit_event
  accepted_in-Still accepting capacity (ok p) now t = (refl, inl (refl, refl))
  accepted_in-Still accepting capacity (err e) now t = Still-same t
  accepted_in-Still binding capacity p now t = Still-same t
  accepted_in-Still dialling capacity p now t = Still-same t
  accepted_in-Still ended capacity p now t = Still-same t
  accepted_in-Still (serving k at) capacity p now t = Still-same t

  dialled_with-Still :
      (r : Receiver) (p : String) (capacity id now : ℕ) (t : Transport N)
      → t.receiver ≡ r
      → Still t (dialled_with r p capacity id now t)
  unfolding dialled_with register_peer emit_event
  dialled_with-Still with_loop p capacity id now t e = (refl, inl (refl, rw e))
  dialled_with-Still held p capacity id now t e = Still-same t
  dialled_with-Still returned p capacity id now t e = Still-same t
  dialled_with-Still dropped p capacity id now t e = Still-same t
  dialled_with-Still (with_link l) p capacity id now t e = Still-same t

  pub dialled_in-Still :
      (role : SapientRole) (l : LoopState) (capacity id now : ℕ) (t : Transport N)
      → Still t (dialled_in role l capacity id now t)
  unfolding dialled_in
  dialled_in-Still (hldmm _) l capacity id now t = Still-same t
  dialled_in-Still (dlmm a p) dialling capacity id now t =
      dialled_with-Still t.receiver p capacity id now t refl
  dialled_in-Still (dlmm a p) binding capacity id now t = Still-same t
  dialled_in-Still (dlmm a p) accepting capacity id now t = Still-same t
  dialled_in-Still (dlmm a p) ended capacity id now t = Still-same t
  dialled_in-Still (dlmm a p) (serving k at) capacity id now t = Still-same t

  resumed_with-Still :
      (r : Receiver) (p : String) (capacity id at now : ℕ) (t : Transport N)
      → t.receiver ≡ r
      → Still t (resumed_with r p capacity id at now t)
  unfolding resumed_with
  resumed_with-Still held p capacity id at now t e = Still-same t
  resumed_with-Still with_loop p capacity id at now t e = Still-same t
  resumed_with-Still dropped p capacity id at now t e = (refl, inl (refl, refl))
  resumed_with-Still (with_link l) p capacity id at now t e = Still-same t
  resumed_with-Still returned p capacity id at now t e =
      let again = record t { loops = update id (λ _. dialling) t.loops; receiver = with_loop } in
      elim (Bool-cases (is_some (Dict.get p t.peers))) [
        | inl here ↦
            rw (resumed_with, here)
              (Still-trans t again (deregister_peer capacity p at now again)
                (refl, inl (refl, rw e)) (deregister_peer-Still capacity p at now again))
        | inr gone ↦ rw (resumed_with, gone) (refl, inr (refl, refl))
      ]

  pub resumed_in-Still :
      (role : SapientRole) (l : LoopState) (capacity id now : ℕ) (t : Transport N)
      → Still t (resumed_in role l capacity id now t)
  unfolding resumed_in
  resumed_in-Still (hldmm _) l capacity id now t = Still-same t
  resumed_in-Still (dlmm a p) (serving link at) capacity id now t =
      resumed_with-Still t.receiver p capacity id at now t refl
  resumed_in-Still (dlmm a p) binding capacity id now t = Still-same t
  resumed_in-Still (dlmm a p) accepting capacity id now t = Still-same t
  resumed_in-Still (dlmm a p) dialling capacity id now t = Still-same t
  resumed_in-Still (dlmm a p) ended capacity id now t = Still-same t
