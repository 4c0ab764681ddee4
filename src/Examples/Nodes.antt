-- ===== src/Examples/Nodes.antt =====
-- The registry and the watchdog.
use peat_sapient.Base.{
  ℕ, ◌≤◌, ◌<◌, ◌≡◌, refl, String, Bool, true, false, not, ◌&&◌, Option, none, some, List, [], ◌∷◌,
  arith, take, is_some, if◌then◌else◌,
}
use peat_sapient.Base.Dict.{Dict, Distinct}
use peat_sapient.Registry.{
  Call, upserts, removes, ConnectedNode, NodeRegistry, new_registry, get_node, get_position, run,
}
use peat_sapient.Registry.History.{get_node-run, entry_from}
use peat_sapient.Watchdog.{expired, sweep, run_watchdog}
use peat_sapient.Watchdog.Sweep.{keep_active}
use peat_sapient.Watchdog.Timing.{get_node-run_watchdog}

abbrev calls : List (Call ℕ ℕ)
calls =
    upserts 1 "radar" (some 7) none
    ∷ upserts 5 "radar" none (some 9)
    ∷ upserts 3 "camera" none (some 8)
    ∷ removes "camera"
    ∷ []

abbrev node : String → ℕ → ConnectedNode ℕ ℕ
node j t = record { node_id = j; capability = none; last_position = none; last_seen = t }

abbrev nodes : NodeRegistry ℕ ℕ
nodes = ("radar", node "radar" 10) ∷ ("camera", node "camera" 100) ∷ ("lidar", node "lidar" 20) ∷ []

get_node-run_example :
    get_node "radar" (run nodes calls) ≡ entry_from "radar" (get_node "radar" nodes) calls
get_node-run_example = get_node-run "radar" calls nodes

nodes-Distinct : Distinct nodes
unfolding peat_sapient.Base.Dict.get
nodes-Distinct = (refl, (refl, (refl, tt)))

get_node-run_watchdog_example :
    get_node "radar" (run_watchdog 5 30 20 3 nodes).registry
    ≡ keep_active 30 110 (get_node "radar" nodes)
unfolding run_watchdog peat_sapient.Watchdog.tick peat_sapient.Registry.remove
    peat_sapient.Base.Dict.remove
get_node-run_watchdog_example =
    get_node-run_watchdog 5 30 20 2 nodes (omega arith) nodes-Distinct refl "radar"
