-- ===== src/Watchdog.antt =====
-- peat-sapient/src/watchdog.rs: the heartbeat watchdog. A tick reads the registry once, then
-- removes and reports one silent node after another. The receiver of the reports is modelled by
-- `room`, the number of further sends that succeed before it is dropped.
pub mod Sweep
pub mod Timing
use peat_sapient.Base.{
  ℕ, zero, suc, ◌-◌, ◌*◌, ◌+◌, String, Bool, true, false, List, [], ◌∷◌, map, leb, ◌++◌, length,
  retain, if◌then◌else◌,
}
use peat_sapient.Registry.{ConnectedNode, NodeRegistry, remove}

-- What a tick leaves: the registry, the nodes reported as disconnected, and whether the watchdog
-- goes on.
pub record Swept (Cap Pos : Type 0) : Type 0 where
  pub registry : NodeRegistry Cap Pos
  pub reported : List String
  pub goes_on : Bool

module _ {Cap Pos : Type 0} where
  -- `now.duration_since(n.last_seen) >= threshold`, with `threshold = heartbeat_interval * 2`.
  unfoldable pub is_silent : ℕ → ℕ → ConnectedNode Cap Pos → Bool
  is_silent interval now n = leb (interval * 2) (now - n.last_seen)

  unfoldable pub expired : ℕ → ℕ → NodeRegistry Cap Pos → List String
  unfolding is_silent
  expired interval now registry = map (λ e. e.0) (retain (λ e. is_silent interval now e.1) registry)

  -- The `for` loop of a tick: a node is removed before it is reported, and a report that cannot be
  -- sent ends the watchdog.
  unfoldable pub notify : ℕ → List String → NodeRegistry Cap Pos → Swept Cap Pos
  notify room [] reg = record { registry = reg; reported = []; goes_on = true }
  notify zero (k ∷ ks) reg = record { registry = remove k reg; reported = []; goes_on = false }
  notify (suc room) (k ∷ ks) reg =
      let rest = notify room ks (remove k reg) in record rest { reported = k ∷ rest.reported }

  unfoldable pub sweep : ℕ → ℕ → ℕ → NodeRegistry Cap Pos → Swept Cap Pos
  unfolding expired notify
  sweep room interval now reg = notify room (expired interval now reg) reg

  -- One round of the `loop`, unless an earlier one has ended it.
  unfoldable pub tick : ℕ → ℕ → ℕ → Swept Cap Pos → Swept Cap Pos
  unfolding sweep
  tick room interval now w =
      let s = sweep (room - length w.reported) interval now w.registry in
      if w.goes_on then record s { reported = w.reported ++ s.reported } else w

  -- The first `ticks` ticks, at `start + interval`, `start + 2 * interval`, ….
  unfoldable pub run_watchdog : ℕ → ℕ → ℕ → ℕ → NodeRegistry Cap Pos → Swept Cap Pos
  run_watchdog room interval start zero reg = record {
    registry = reg;
    reported = [];
    goes_on = true;
  }
  run_watchdog room interval start (suc ticks) reg =
      tick room interval (start + suc ticks * interval) (run_watchdog room interval start ticks reg)
