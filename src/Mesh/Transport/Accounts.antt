-- ===== src/Mesh/Transport/Accounts.antt =====
-- What became of every message that the sink of peat-mesh-sapient/src/transport.rs accepted.
use mathlib.Core.List.{append_assoc, append-nil, map-append}
use peat_sapient.Base.{
  ℕ, ◌+◌, ◌≤◌, ◌≡◌, refl, sym, ap, ◌∙◌, ◌⊎◌, inl, inr, Bool, true, false, ◌&&◌, List, [], ◌∷◌, ◌++◌,
  map, arith, length, length-append, ltb, ltb→lt, Bool-cases,
}
use peat_sapient.Mesh.Transport.{
  SapientRole, hldmm, dlmm, Receiver, held, with_loop, returned, dropped, with_link, Transport,
}
use peat_sapient.Mesh.Transport.Loops.{
  Sent, discarded, accepted, waiting, closed, send_outbound, send_as, push, put, close_link,
  return_from_link, write, write_head, owns, is_running, outbound_channel_depth,
}
use peat_sapient.Mesh.Transport.Outbound.{is_dropped, Still}

abbrev pub taken : Sent → List ℕ → List (List ℕ)
taken accepted bytes = bytes ∷ []
taken discarded bytes = []
taken waiting bytes = []
taken closed bytes = []

put-split :
    (xs queue lost sent : List (List ℕ)) (bytes : List ℕ)
    → lost ≡ []
    → xs ++ (queue ++ lost) ≡ sent
    → xs ++ ((queue ++ bytes ∷ []) ++ lost) ≡ sent ++ bytes ∷ []
put-split xs queue lost sent bytes e h =
    rw (sym h, e, append-nil, append-nil) (sym (append_assoc xs queue (bytes ∷ [])))

-- The message at the front goes out.
shift :
    (done : List (List ℕ × Bool)) (raw : List ℕ) (rest lost : List (List ℕ)) (success : Bool)
    → map (λ (w : List ℕ × Bool). w.0) (done ++ (raw, success) ∷ []) ++ (rest ++ lost)
      ≡ map (λ (w : List ℕ × Bool). w.0) done ++ ((raw ∷ rest) ++ lost)
shift done raw rest lost success =
    rw (map-append) (append_assoc (map (λ (w : List ℕ × Bool). w.0) done) (raw ∷ []) (rest ++ lost))

is_dropped-return : (link : ℕ) (r : Receiver) → is_dropped (return_from_link link r) ≡ is_dropped r
unfolding return_from_link
is_dropped-return link held = refl
is_dropped-return link with_loop = refl
is_dropped-return link returned = refl
is_dropped-return link dropped = refl
is_dropped-return link (with_link l) = ground arith

module _ {N : Type 0} where
  -- The messages were sent in this order: those written come first, then those in the channel, and
  -- then those lost with it, which are none before the receiver is dropped and all of them after.
  pub record Accounts (sent : List (List ℕ)) (t : Transport N) : Type 0 where
    pub lost : List (List ℕ)
    pub split : map (λ w. w.0) t.writes ++ (t.outbound ++ lost) ≡ sent
    pub few : length t.outbound + length lost ≤ outbound_channel_depth
    pub whole :
        ((is_dropped t.receiver ≡ false) × (lost ≡ []))
        ⊎ ((is_dropped t.receiver ≡ true) × (t.outbound ≡ []))

  pub Accounts-Still :
      (sent : List (List ℕ)) (t u : Transport N) → Still t u → Accounts sent t → Accounts sent u
  Accounts-Still sent t u (w, inl (o, d)) a = record {
    lost = a.lost;
    split = rw (w, o) a.split;
    few = rw o a.few;
    whole = rw (d, o) a.whole;
  }
  Accounts-Still sent t u (w, inr (o, d)) a = record {
    lost = t.outbound ++ a.lost;
    split = rw (w, o) a.split;
    few = omega (arith, ap length o, length-append t.outbound a.lost, a.few);
    whole = inr (d, o);
  }

  not_dropped :
      {sent : List (List ℕ)} (t : Transport N)
      → is_dropped t.receiver ≡ false
      → (a : Accounts sent t) → a.lost ≡ []
  not_dropped t live a = elim a.whole [ inl (d, none_lost) ↦ none_lost | inr (d, e) ↦ absurd (cc) ]

  Accounts-same :
      (sent : List (List ℕ)) (t : Transport N) → Accounts sent t → Accounts (sent ++ []) t
  Accounts-same sent t a = rw (append-nil sent) a

  put-Accounts :
      (sent : List (List ℕ)) (bytes : List ℕ) (t : Transport N)
      → is_dropped t.receiver ≡ false
      → Accounts sent t
      → Accounts (sent ++ taken (put bytes t).0 bytes) (put bytes t).1
  unfolding put
  put-Accounts sent bytes t live a =
      let none_lost = not_dropped t live a in
      elim (Bool-cases (ltb (length t.outbound) outbound_channel_depth)) [
        | inl room ↦
            rw (put, room)
              (record {
                lost = a.lost;
                split =
                    put-split (map (λ w. w.0) t.writes) t.outbound a.lost sent bytes none_lost
                      a.split;
                few = omega (
                  arith,
                  length-append t.outbound (bytes ∷ []),
                  ltb→lt _ _ room,
                  ap length none_lost,
                );
                whole = inl (live, none_lost);
              })
        | inr full ↦ rw (put, full) (Accounts-same sent t a)
      ]

  push-Accounts :
      (r : Receiver) (sent : List (List ℕ)) (bytes : List ℕ) (t : Transport N)
      → t.receiver ≡ r
      → Accounts sent t
      → Accounts (sent ++ taken (push r bytes t).0 bytes) (push r bytes t).1
  unfolding push
  push-Accounts dropped sent bytes t e a = Accounts-same sent t a
  push-Accounts held sent bytes t e a = put-Accounts sent bytes t (rw e) a
  push-Accounts with_loop sent bytes t e a = put-Accounts sent bytes t (rw e) a
  push-Accounts returned sent bytes t e a = put-Accounts sent bytes t (rw e) a
  push-Accounts (with_link l) sent bytes t e a = put-Accounts sent bytes t (rw e) a

  send_as-Accounts :
      (role : SapientRole) (sent : List (List ℕ)) (bytes : List ℕ) (t : Transport N)
      → Accounts sent t
      → Accounts (sent ++ taken (send_as role bytes t).0 bytes) (send_as role bytes t).1
  unfolding send_as
  send_as-Accounts (hldmm _) sent bytes t a = Accounts-same sent t a
  send_as-Accounts (dlmm a p) sent bytes t acc = push-Accounts t.receiver sent bytes t refl acc

  pub send_outbound-Accounts :
      (sent : List (List ℕ)) (bytes : List ℕ) (t : Transport N)
      → Accounts sent t
      → Accounts (sent ++ taken (send_outbound bytes t).0 bytes) (send_outbound bytes t).1
  unfolding send_outbound
  send_outbound-Accounts sent bytes t a = send_as-Accounts t.role sent bytes t a

  pub close_link-Still : (link : ℕ) (t : Transport N) → Still t (close_link link t)
  unfolding close_link
  close_link-Still link t = (refl, inl (refl, is_dropped-return link t.receiver))

  -- What a write takes out of the channel.
  written-Accounts :
      (sent : List (List ℕ)) (raw : List ℕ) (rest : List (List ℕ)) (success : Bool)
      (t : Transport N)
      → t.outbound ≡ raw ∷ rest
      → Accounts sent t
      → Accounts sent (record t { outbound = rest; writes = t.writes ++ (raw, success) ∷ [] })
  written-Accounts sent raw rest success t e a = record {
    lost = a.lost;
    split =
        shift t.writes raw rest a.lost success
        ∙ (ap (λ q. map (λ (w : List ℕ × Bool). w.0) t.writes ++ (q ++ a.lost)) (sym e) ∙ a.split);
    few = omega (arith, ap length e, a.few);
    whole = elim a.whole [ inl (d, l) ↦ inl (d, l) | inr (d, empty) ↦ absurd (cc) ];
  }

  write_head-Accounts :
      (queue sent : List (List ℕ)) (link : ℕ) (success : Bool) (t : Transport N)
      → t.outbound ≡ queue
      → Accounts sent t
      → Accounts sent (write_head queue link success t)
  unfolding write_head
  write_head-Accounts [] sent link success t e a = a
  write_head-Accounts (raw ∷ rest) sent link true t e a = written-Accounts sent raw rest true t e a
  write_head-Accounts (raw ∷ rest) sent link false t e a =
      let written = record t { outbound = rest; writes = t.writes ++ (raw, false) ∷ [] } in
      Accounts-Still sent written (close_link link written) (close_link-Still link written)
        (written-Accounts sent raw rest false t e a)

  pub write-Accounts :
      (sent : List (List ℕ)) (link : ℕ) (success : Bool) (t : Transport N)
      → Accounts sent t
      → Accounts sent (write link success t)
  unfolding write
  write-Accounts sent link success t a =
      elim (Bool-cases (owns link t.receiver && is_running link t)) [
        | inl e ↦ rw (write, e) (write_head-Accounts t.outbound sent link success t refl a)
        | inr e ↦ rw (write, e) a
      ]
