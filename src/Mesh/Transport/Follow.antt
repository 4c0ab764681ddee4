-- ===== src/Mesh/Transport/Follow.antt =====
-- What the events of peat-mesh-sapient/src/transport.rs tell, and the subscriber that follows them.
use mathlib.Core.List.{append_assoc}
use peat_sapient.Base.{
  ℕ, zero, suc, ◌≤◌, ◌<◌, String, ◌≡◌, sym, ap, refl, ◌∙◌, ◌⊎◌, true, false, Option, none, some,
  List, [], ◌∷◌, ◌++◌, map, arith, lt→ltb, length, length-append, inl, inr,
}
use peat_sapient.Float.{Float}
use peat_sapient.Mesh.Transport.{PeerEvent, Subscriber, Transport}
use peat_sapient.Mesh.Transport.Peers.{try_send}
use peat_sapient.Mesh.Transport.Run.{Event, stopped, unsubscribed, take_event}
use peat_sapient.Mesh.Transport.Tracking.{Peers, track, track_if, send_if, is_connected, Change}

-- The abstract transport after the events, in order.
abbrev pub replay : List PeerEvent → Peers → Peers
replay [] f = f
replay (e ∷ es) f = replay es (track e f)

abbrev pub nobody : Peers
nobody p = false

-- All that a subscriber was sent: what it took out, and what waits for it.
abbrev pub history : Subscriber → List PeerEvent
history s = s.received ++ s.queue

replay-append : (es fs : List PeerEvent) (f : Peers) → replay (es ++ fs) f ≡ replay fs (replay es f)
replay-append [] fs f = refl
replay-append (e ∷ es) fs f = replay-append es fs (track e f)

track-cong :
    (o : Option PeerEvent) (f g : Peers) (p : String)
    → ((q : String) → f q ≡ g q)
    → track_if o f p ≡ track_if o g p
track-cong none f g p h = h p
track-cong (some (PeerEvent.connected q at)) f g p h = rw (h p)
track-cong (some (PeerEvent.disconnected q reason d)) f g p h = rw (h p)

-- Neither `stop`, nor a loss of the first subscriber.
abbrev pub Steady : {fl : Float} → Event fl → Type 0
Steady stopped = ⊥
Steady (unsubscribed zero) = ⊥
Steady _ = Unit

history-try_send :
    (capacity : ℕ) (e : PeerEvent) (s : Subscriber)
    → s.listening ≡ true
    → length s.queue < capacity
    → try_send capacity e s ≡ record s { queue = s.queue ++ e ∷ [] }
unfolding try_send
history-try_send capacity e s l h = rw (l, lt→ltb _ _ h)

module _ {N : Type 0} where
  -- The first subscriber has at most `n` events waiting, and its events tell who is connected.
  pub record Tracks (n : ℕ) (t : Transport N) : Type 0 where
    pub first : Subscriber
    pub rest : List Subscriber
    pub senders : t.event_senders ≡ first ∷ rest
    pub listening : first.listening ≡ true
    pub room : length first.queue ≤ n
    pub faithful : (p : String) → replay (history first) nobody p ≡ is_connected t p

  announced-Tracks :
      (capacity n : ℕ) (t u : Transport N) (o : Option PeerEvent)
      → n < capacity
      → u.event_senders ≡ send_if capacity o t.event_senders
      → ((p : String) → is_connected u p ≡ track_if o (is_connected t) p)
      → Tracks n t
      → Tracks (suc n) u
  announced-Tracks capacity n t u none h a r k = record {
    first = k.first;
    rest = k.rest;
    senders = a ∙ k.senders;
    listening = k.listening;
    room = omega (arith, k.room);
    faithful = λ p. k.faithful p ∙ sym (r p);
  }
  announced-Tracks capacity n t u (some e) h a r k = record {
    first = record k.first { queue = k.first.queue ++ e ∷ [] };
    rest = map (try_send capacity e) k.rest;
    senders =
        a
        ∙ ap (map (try_send capacity e)) k.senders
        ∙ ap (λ s. s ∷ map (try_send capacity e) k.rest)
            (history-try_send capacity e k.first k.listening (omega (arith, k.room)));
    listening = k.listening;
    room = omega (arith, k.room, length-append k.first.queue (e ∷ []));
    faithful = λ p.
        ap (λ es. replay es nobody p) (sym (append_assoc k.first.received k.first.queue (e ∷ [])))
        ∙ ap (λ (f : Peers). f p) (replay-append (history k.first) (e ∷ []) nobody)
        ∙ track-cong (some e) (replay (history k.first) nobody) (is_connected t) p k.faithful
        ∙ sym (r p);
  }

  pub Change-Tracks :
      (capacity n : ℕ) (t u : Transport N)
      → n < capacity
      → Change capacity t u
      → Tracks n t
      → Tracks (suc n) u
  Change-Tracks capacity n t u h c k =
      announced-Tracks capacity n t u c.event h c.announced c.recorded k

  -- The first subscriber was sent the same, the others and all else of the peers as before.
  pub replaced-Tracks :
      (n : ℕ) (t u : Transport N) (s : Subscriber) (rest : List Subscriber) (k : Tracks n t)
      → u.event_senders ≡ s ∷ rest
      → u.peers ≡ t.peers
      → s.listening ≡ true
      → length s.queue ≤ n
      → history s ≡ history k.first
      → Tracks (suc n) u
  replaced-Tracks n t u s rest k senders peers l room same = record {
    first = s;
    rest = rest;
    senders = senders;
    listening = l;
    room = omega (arith, room);
    faithful = λ p. ap (λ es. replay es nobody p) same ∙ k.faithful p ∙ rw peers;
  }

List-cases :
    (es : List PeerEvent)
    → (es ≡ []) ⊎ ((e : PeerEvent) × (rest : List PeerEvent) × (es ≡ e ∷ rest))
List-cases [] = inl refl
List-cases (e ∷ es) = inr (e, es, refl)

-- Taking an event out moves it from the channel to what was received.
pub take_event-kept :
    (s : Subscriber)
    → (history (take_event s) ≡ history s)
      × (length (take_event s).queue ≤ length s.queue)
      × ((take_event s).listening ≡ s.listening)
unfolding take_event
take_event-kept s = elim (List-cases s.queue) [
  | inl e ↦ rw (e, take_event) (rw e, rw e (omega arith), refl)
  | inr (x, rest, e) ↦ rw (e, take_event) (append_assoc s.received (x ∷ []) rest, omega arith, refl)
]
