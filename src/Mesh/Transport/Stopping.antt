-- ===== src/Mesh/Transport/Stopping.antt =====
-- `stop` of peat-mesh-sapient/src/transport.rs in each stage of a started DLMM transport.
use peat_sapient.Base.{
  ℕ, zero, suc, String, ◌≡◌, ◌≢◌, refl, ◌∙◌, Option, none, some, [], ◌∷◌, arith, ◌==◌, ==_iff,
  eq_iff, Bool-cases, inl, inr,
}
use peat_sapient.Base.Dict
use peat_sapient.Base.Dict.{Dict, get-insert, get-remove}
use peat_sapient.Mesh.Transport.{PeerRecord, ended, dropped, with_link, Transport, update}
use peat_sapient.Mesh.Transport.Peers.{
  abort_link, abort_loop, abort_all, stop, drop_from_link, drop_from_loop,
}
use peat_sapient.Mesh.Transport.Lifecycle.{
  Works, Stage, dials, serves, lost, taken_down, over, IsOver, abort_link-frame,
  abort_link-receiver, abort_link-own, abort_link-other,
}

update-ended : (id : ℕ) → update id (λ _. ended) (ended ∷ []) ≡ ended ∷ []
update-ended zero = refl
update-ended (suc id) = refl

module _ {N : Type 0} (addr peer : String) where
  abort_all-IsOver :
      (peers : Dict PeerRecord) (t : Transport N)
      → IsOver addr peer t
      → IsOver addr peer (abort_all peers t)
  unfolding abort_all drop_from_link
  abort_all-IsOver [] t o = o
  abort_all-IsOver ((q, r) ∷ rest) t o =
      let f = abort_link-frame addr peer r.link t in
      abort_all-IsOver rest (abort_link r.link t) (record {
        loops = f.0 ∙ o.loops;
        receiver = abort_link-receiver addr peer r.link t dropped refl o.receiver;
      })

  -- Among the records is the one of the link that owns the receiver.
  abort_all-owner :
      (peers : Dict PeerRecord) (link : ℕ) (entry : PeerRecord) (t : Transport N)
      → Dict.get peer peers ≡ some entry
      → entry.link ≡ link
      → t.loops ≡ ended ∷ []
      → t.receiver ≡ with_link link
      → Works addr peer link t
      → IsOver addr peer (abort_all peers t)
  unfolding abort_all Dict.get
  abort_all-owner [] link entry t e l a b w = cc
  abort_all-owner ((q, r) ∷ rest) link entry t e l a b w =
      let f = abort_link-frame addr peer r.link t in
      elim (Bool-cases (r.link == link)) [
        | inl own ↦ abort_all-IsOver rest (abort_link r.link t) (record {
          loops = f.0 ∙ a;
          receiver = abort_link-own addr peer r.link link t ((==_iff r.link link).0 own) b w;
        })
        | inr other ↦
            let ne : r.link ≢ link = λ (k : r.link ≡ link). ground arith in
            let later : Dict.get peer rest ≡ some entry = ground (arith, eq_iff q peer) in
            let kept = abort_link-other addr peer r.link link t ne b w in
            abort_all-owner rest link entry (abort_link r.link t) later l (f.0 ∙ a) kept.0 kept.1
      ]

  abort_loop-IsOver :
      (id : Option ℕ) (t : Transport N) → IsOver addr peer t → IsOver addr peer (abort_loop id t)
  unfolding abort_loop drop_from_loop
  abort_loop-IsOver none t o = o
  abort_loop-IsOver (some id) t o = record {
    loops = rw o.loops (update-ended id);
    receiver = rw o.receiver;
  }

  -- What `stop` does to the loop and to the links, with `peers` the records that it drains.
  abbrev torn_down : Transport N → Transport N
  torn_down t =
      abort_all t.peers
        (record (abort_loop t.listener_task (record t { listener_task = none })) { peers = [] })

  torn_down-IsOver : (t : Transport N) → Stage addr peer t → IsOver addr peer (torn_down t)
  unfolding abort_loop drop_from_loop
  torn_down-IsOver t (dials a b c) =
      rw c (abort_all-IsOver t.peers _ (record { loops = rw a; receiver = rw b }))
  torn_down-IsOver t (lost k at a b c) =
      rw c (abort_all-IsOver t.peers _ (record { loops = rw a; receiver = rw b }))
  torn_down-IsOver t (taken_down k at a b c) =
      rw c (abort_all-IsOver t.peers _ (record { loops = rw a; receiver = rw b }))
  torn_down-IsOver t (over a b) =
      let o =
        abort_loop-IsOver t.listener_task (record t { listener_task = none })
          (record { loops = a; receiver = b }) in
      abort_all-IsOver t.peers _ (record { loops = o.loops; receiver = o.receiver })
  torn_down-IsOver t (serves k at a b c r) = rw c (
      abort_all-owner t.peers k r.entry _ r.recorded r.linked (rw a) (rw b)
        (record { task = r.works.task; at_link = r.works.at_link; running = r.works.running }))

  pub stop-IsOver : (t : Transport N) → Stage addr peer t → IsOver addr peer (stop t)
  unfolding stop
  stop-IsOver t s =
      let o = torn_down-IsOver t s in record { loops = o.loops; receiver = o.receiver }
