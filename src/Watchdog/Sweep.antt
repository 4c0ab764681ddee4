-- ===== src/Watchdog/Sweep.antt =====
-- What one tick of peat-sapient/src/watchdog.rs removes and reports.
use peat_sapient.Base.{
  ℕ, zero, suc, ◌+◌, ◌*◌, ◌≤◌, ◌<◌, String, Bool, true, false, not, ◌&&◌, ◌||◌, ◌≡◌, refl, ◌∙◌,
  Option, none, some, List, [], ◌∷◌, arith, str_eq, eq_iff, leb, ltb, if◌then◌else◌, length, take,
  is_some, take_all, le→leb,
}
use peat_sapient.Base.Dict
use peat_sapient.Base.Dict.{Dict, Distinct, get-remove, remove-Distinct}
use peat_sapient.Registry.{ConnectedNode, NodeRegistry, get_node, remove}
use peat_sapient.Watchdog.{is_silent, expired, notify, sweep}

abbrev pub is_in : String → List String → Bool
is_in j [] = false
is_in j (k ∷ ks) = str_eq k j || is_in j ks

module _ {Cap Pos : Type 0} where
  -- What a tick at `now` leaves of an entry: a node stays until twice the interval has passed since
  -- it was last seen.
  abbrev pub keep_active : ℕ → ℕ → Option (ConnectedNode Cap Pos) → Option (ConnectedNode Cap Pos)
  keep_active interval now none = none
  keep_active interval now (some n) = if ltb now (n.last_seen + interval * 2) then some n else none

  notify-take :
      (room : ℕ) (ks : List String) (reg : NodeRegistry Cap Pos)
      → ((notify room ks reg).reported ≡ take room ks)
        × ((notify room ks reg).goes_on ≡ leb (length ks) room)
  unfolding notify
  notify-take zero [] reg = (refl, ground arith)
  notify-take (suc room) [] reg = (refl, ground arith)
  notify-take zero (k ∷ ks) reg = (refl, ground arith)
  notify-take (suc room) (k ∷ ks) reg = ground (arith, notify-take room ks (remove k reg))

  get-notify :
      (j : String) (room : ℕ) (ks : List String) (reg : NodeRegistry Cap Pos)
      → get_node j (notify room ks reg).registry
        ≡ (if is_in j (take (suc room) ks) then none else get_node j reg)
  unfolding notify get_node remove
  get-notify j room [] reg = refl
  get-notify j zero (k ∷ ks) reg = ground (arith, get-remove j k reg)
  get-notify j (suc room) (k ∷ ks) reg =
      ground (arith, get-notify j room ks (remove k reg), get-remove j k reg)

  Distinct-notify :
      (room : ℕ) (ks : List String) (reg : NodeRegistry Cap Pos)
      → Distinct reg
      → Distinct (notify room ks reg).registry
  unfolding notify remove
  Distinct-notify room [] reg d = d
  Distinct-notify zero (k ∷ ks) reg d = remove-Distinct k reg d
  Distinct-notify (suc room) (k ∷ ks) reg d =
      Distinct-notify room ks (remove k reg) (remove-Distinct k reg d)

  -- Whether the tick finds the node silent.
  silent_now : ℕ → ℕ → Option (ConnectedNode Cap Pos) → Bool
  silent_now interval now none = false
  silent_now interval now (some n) = is_silent interval now n

  is_in-expired :
      (j : String) (interval now : ℕ) (reg : NodeRegistry Cap Pos)
      → Distinct reg
      → is_in j (expired interval now reg) ≡ silent_now interval now (get_node j reg)
  unfolding expired get_node Dict.get silent_now
  is_in-expired j interval now [] d = refl
  is_in-expired j interval now ((k, n) ∷ reg) d =
      ground (arith, eq_iff k j, is_in-expired j interval now reg d.1)

  silent-keep :
      (interval now : ℕ) (o : Option (ConnectedNode Cap Pos))
      → 0 < interval
      → ((if silent_now interval now o then none else o) ≡ keep_active interval now o)
        × (silent_now interval now o ≡ (is_some o && not (is_some (keep_active interval now o))))
  unfolding silent_now is_silent
  silent-keep interval now none h = (refl, refl)
  silent-keep interval now (some n) h = ground arith

  -- A tick whose reports are all received removes exactly the nodes not seen for twice the
  -- interval, leaves the entries of all others as they were, reports exactly the removed nodes, and
  -- the watchdog goes on.
  pub sweep_complete :
      (room interval now : ℕ) (reg : NodeRegistry Cap Pos)
      → 0 < interval
      → Distinct reg
      → length (expired interval now reg) ≤ room
      → let s = sweep room interval now reg in
        (s.goes_on ≡ true)
        × ((j : String) → get_node j s.registry ≡ keep_active interval now (get_node j reg))
        × ((j : String)
            → is_in j s.reported ≡ (
                is_some (get_node j reg)
                && not (is_some (keep_active interval now (get_node j reg)))))
  unfolding sweep
  sweep_complete room interval now reg pos d h =
      let ks = expired interval now reg in
      let all : take room ks ≡ ks = take_all ks room h in
      let all' : take (suc room) ks ≡ ks = take_all ks (suc room) (omega arith) in
      (
        (notify-take room ks reg).1 ∙ le→leb _ _ h,
        (λ j.
            get-notify j room ks reg
            ∙ rw (all', is_in-expired j interval now reg d)
                (silent-keep interval now (get_node j reg) pos).0),
        (λ j.
            rw ((notify-take room ks reg).0, all, is_in-expired j interval now reg d)
              (silent-keep interval now (get_node j reg) pos).1),
      )

  -- Where the receiver is dropped after `room` reports, the watchdog ends, has reported the first
  -- `room` silent nodes, and has removed these and one more, whose report was lost.
  pub sweep_shutdown :
      (room interval now : ℕ) (reg : NodeRegistry Cap Pos)
      → room < length (expired interval now reg)
      → let s = sweep room interval now reg in
        (s.goes_on ≡ false)
        × (s.reported ≡ take room (expired interval now reg))
        × ((j : String)
            → get_node j s.registry ≡ (
                if is_in j (take (suc room) (expired interval now reg))
                then none
                else get_node j reg))
  unfolding sweep
  sweep_shutdown room interval now reg h =
      let ks = expired interval now reg in
      (
        ground (arith, notify-take room ks reg),
        (notify-take room ks reg).0,
        λ j. get-notify j room ks reg,
      )

  pub Distinct-sweep :
      (room interval now : ℕ) (reg : NodeRegistry Cap Pos)
      → Distinct reg
      → Distinct (sweep room interval now reg).registry
  unfolding sweep
  Distinct-sweep room interval now reg = Distinct-notify room (expired interval now reg) reg

  pub sweep-goes_on :
      (room interval now : ℕ) (reg : NodeRegistry Cap Pos)
      → (sweep room interval now reg).goes_on ≡ true
      → length (expired interval now reg) ≤ room
  unfolding sweep
  sweep-goes_on room interval now reg h =
      ground (arith, notify-take room (expired interval now reg) reg)
