-- ===== src/Mesh/Transport/Shutdown.antt =====
-- The calls of peat-mesh-sapient/src/transport.rs that keep a started DLMM transport in its stage.
use peat_sapient.Base.{
  ℕ, String, ◌≡◌, refl, Bool, true, false, ◌&&◌, some, List, [], ◌∷◌, arith, Bool-cases,
  Option-cases, inl, inr,
}
use peat_sapient.Error.{Result}
use peat_sapient.Mesh.Transport.{
  dlmm, LoopState, binding, accepting, dialling, ended, serving, Transport, get_elem?,
}
use peat_sapient.Mesh.Transport.Loops.{
  panicked, start, start_as, start_dlmm, send_outbound, send_as, push, put, bound_in, accepted_in,
  is_running, write, write_head, owns,
}
use peat_sapient.Mesh.Transport.Run.{in_loop}
use peat_sapient.Mesh.Transport.Lifecycle.{
  Stage, dials, serves, lost, taken_down, over, Stage-same, close_link-Stage,
}
use peat_sapient.Mesh.Transport.Stages.{only_loop}

-- The loops of a DLMM transport do not listen.
abbrev pub Idle : LoopState → Type 0
Idle binding = ⊥
Idle accepting = ⊥
Idle _ = Unit

pub bound_in-Idle :
    {N : Type 0} (l : LoopState) (id : ℕ) (b : Bool) (t : Transport N)
    → Idle l
    → bound_in l id b t ≡ t
unfolding bound_in
bound_in-Idle binding id b t h = elim h [ ]
bound_in-Idle accepting id b t h = elim h [ ]
bound_in-Idle dialling id b t h = refl
bound_in-Idle ended id b t h = refl
bound_in-Idle (serving k at) id b t h = refl

pub accepted_in-Idle :
    {N : Type 0} (l : LoopState) (capacity : ℕ) (p : Result String) (now : ℕ) (t : Transport N)
    → Idle l
    → accepted_in l capacity p now t ≡ t
unfolding accepted_in
accepted_in-Idle binding capacity p now t h = elim h [ ]
accepted_in-Idle accepting capacity p now t h = elim h [ ]
accepted_in-Idle dialling capacity p now t h = refl
accepted_in-Idle ended capacity p now t h = refl
accepted_in-Idle (serving k at) capacity p now t h = refl

module _ {N : Type 0} (addr peer : String) where
  only-Idle :
      (x l : LoopState) (id : ℕ) (t : Transport N)
      → t.loops ≡ x ∷ []
      → Idle x
      → get_elem? t.loops id ≡ some l
      → Idle l
  only-Idle x l id t a h e = let (first, same) = only_loop x l id (rw a at e) in rw same h

  pub Stage-Idle :
      (id : ℕ) (l : LoopState) (t : Transport N)
      → Stage addr peer t
      → get_elem? t.loops id ≡ some l
      → Idle l
  Stage-Idle id l t (dials a b c) e = only-Idle dialling l id t a tt e
  Stage-Idle id l t (serves k at a b c r) e = only-Idle (serving k at) l id t a tt e
  Stage-Idle id l t (lost k at a b c) e = only-Idle (serving k at) l id t a tt e
  Stage-Idle id l t (taken_down k at a b c) e = only-Idle (serving k at) l id t a tt e
  Stage-Idle id l t (over a b) e = only-Idle ended l id t a tt e

  pub in_loop-keeps {ℓ} :
      (P : Transport N → Type ℓ) (id : ℕ) (f : LoopState → Transport N → Transport N)
      (t : Transport N)
      → P t
      → ((l : LoopState) → get_elem? t.loops id ≡ some l → P (f l t))
      → P (in_loop id f t)
  in_loop-keeps P id f t h k = elim (Option-cases (get_elem? t.loops id)) [
    | inl e ↦ rw (in_loop, e) h
    | inr (l, e) ↦ rw (in_loop, e) (k l e)
  ]

  -- `start` panics where the receiver was taken already.
  pub start-panicked :
      (now : ℕ) (t : Transport N)
      → t.role ≡ dlmm addr peer
      → Stage addr peer t
      → start now t ≡ (panicked, t)
  unfolding start start_as start_dlmm
  start-panicked now t r (dials a b c) = ground (arith, r, b)
  start-panicked now t r (serves k at a b c w) = ground (arith, r, b)
  start-panicked now t r (lost k at a b c) = ground (arith, r, b)
  start-panicked now t r (taken_down k at a b c) = ground (arith, r, b)
  start-panicked now t r (over a b) = ground (arith, r, b)

  pub send_outbound-Stage :
      (bytes : List ℕ) (t : Transport N)
      → Stage addr peer t
      → Stage addr peer (send_outbound bytes t).1
  unfolding send_outbound send_as push put
  send_outbound-Stage bytes t s =
      Stage-same addr peer t (send_outbound bytes t).1 (ground arith) (ground arith) (ground arith)
        (ground arith) (ground arith) s

  write_head-Stage :
      (queue : List (List ℕ)) (link : ℕ) (success : Bool) (t : Transport N)
      → Stage addr peer t
      → Stage addr peer (write_head queue link success t)
  unfolding write_head
  write_head-Stage [] link success t s = s
  write_head-Stage (raw ∷ rest) link true t s = Stage-same addr peer t _ refl refl refl refl refl s
  write_head-Stage (raw ∷ rest) link false t s =
      close_link-Stage addr peer link _ (Stage-same addr peer t _ refl refl refl refl refl s)

  pub write-Stage :
      (link : ℕ) (success : Bool) (t : Transport N)
      → Stage addr peer t
      → Stage addr peer (write link success t)
  unfolding write
  write-Stage link success t s = elim (Bool-cases (owns link t.receiver && is_running link t)) [
    | inl e ↦ rw (write, e) (write_head-Stage t.outbound link success t s)
    | inr e ↦ rw (write, e) s
  ]
