-- ===== src/Watchdog/Timing.antt =====
-- When the watchdog of peat-sapient/src/watchdog.rs finds a silent node.
use peat_sapient.Base.{
  ℕ, zero, suc, ◌+◌, ◌-◌, ◌*◌, ◌≤◌, ◌<◌, String, true, ◌≡◌, refl, ap, ◌∙◌, Option, none, some,
  arith, length, inl, inr, Bool-cases,
}
use peat_sapient.Base.Dict.{Distinct}
use peat_sapient.Registry.{ConnectedNode, NodeRegistry, get_node}
use peat_sapient.Watchdog.{Swept, sweep, tick, run_watchdog}
use peat_sapient.Watchdog.Sweep.{keep_active, sweep_complete, Distinct-sweep, sweep-goes_on}

module _ {Cap Pos : Type 0} where
  keep_active-later :
      (interval now later : ℕ) (o : Option (ConnectedNode Cap Pos))
      → now ≤ later
      → keep_active interval later (keep_active interval now o) ≡ keep_active interval later o
  keep_active-later interval now later none h = refl
  keep_active-later interval now later (some n) h = ground arith

  Distinct-tick :
      (room interval now : ℕ) (w : Swept Cap Pos)
      → Distinct w.registry
      → Distinct (tick room interval now w).registry
  unfolding tick
  Distinct-tick room interval now w d =
      ground (arith, Distinct-sweep (room - length w.reported) interval now w.registry d)

  get-tick :
      (room interval now : ℕ) (w : Swept Cap Pos)
      → 0 < interval
      → Distinct w.registry
      → (tick room interval now w).goes_on ≡ true
      → (w.goes_on ≡ true)
        × ((j : String)
            → get_node j (tick room interval now w).registry
              ≡ keep_active interval now (get_node j w.registry))
  unfolding tick
  get-tick room interval now w pos d on = elim (Bool-cases w.goes_on) [
    | inl e ↦ (
      e,
      let n = room - length w.reported in
          let on' : (sweep n interval now w.registry).goes_on ≡ true = ground arith in
          let few = sweep-goes_on n interval now w.registry on' in
          λ j. rw (e, tick) ((sweep_complete n interval now w.registry pos d few).1 j),
    )
    | inr e ↦ absurd (ground arith)
  ]

  Distinct-run :
      (room interval start ticks : ℕ) (reg : NodeRegistry Cap Pos)
      → Distinct reg
      → Distinct (run_watchdog room interval start ticks reg).registry
  unfolding run_watchdog
  Distinct-run room interval start zero reg d = d
  Distinct-run room interval start (suc ticks) reg d =
      Distinct-tick room interval _ (run_watchdog room interval start ticks reg)
        (Distinct-run room interval start ticks reg d)

  -- If no message arrives from any node, then after each tick that the watchdog completes the
  -- registry holds exactly the nodes whose silence is then shorter than twice the interval.
  pub get_node-run_watchdog :
      (room interval start ticks : ℕ) (reg : NodeRegistry Cap Pos)
      → 0 < interval
      → Distinct reg
      → (run_watchdog room interval start (suc ticks) reg).goes_on ≡ true
      → (j : String)
      → get_node j (run_watchdog room interval start (suc ticks) reg).registry
        ≡ keep_active interval (start + suc ticks * interval) (get_node j reg)
  unfolding run_watchdog
  get_node-run_watchdog room interval start zero reg pos d on j =
      (get-tick room interval _ _ pos d on).1 j
  get_node-run_watchdog room interval start (suc ticks) reg pos d on j =
      let w = run_watchdog room interval start (suc ticks) reg in
      let (on', kept) =
        get-tick room interval _ w pos (Distinct-run room interval start (suc ticks) reg d) on in
      kept j
      ∙ ap (keep_active interval (start + suc (suc ticks) * interval))
          (get_node-run_watchdog room interval start ticks reg pos d on' j)
      ∙ keep_active-later interval _ _ (get_node j reg) (grind arith)
