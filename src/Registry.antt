-- ===== src/Registry.antt =====
-- peat-sapient/src/registry.rs: what is known of each connected node. The lock is held for one
-- operation at a time, so the state is the map; `Instant::now()` is the argument `now`. The
-- registry never looks inside a capability or a position, whose types are peat-schema's.
pub mod History
use peat_sapient.Base.{ℕ, String, Option, none, some, List, [], unwrap_or, or_else, ◌∷◌}
use peat_sapient.Base.Dict
use peat_sapient.Base.Dict.{Dict}

pub record ConnectedNode (Capability Position : Type 0) : Type 0 where
  pub node_id : String
  pub capability : Option Capability
  pub last_position : Option Position
  pub last_seen : ℕ

abbrev pub NodeRegistry : Type 0 → Type 0 → Type 0
NodeRegistry Capability Position = Dict (ConnectedNode Capability Position)

module _ {Cap Pos : Type 0} where
  unfoldable pub new_registry : NodeRegistry Cap Pos
  new_registry = []

  -- What `or_insert_with` makes.
  unfoldable pub new_node : ℕ → String → ConnectedNode Cap Pos
  new_node now node_id = record {
    node_id = node_id;
    capability = none;
    last_position = none;
    last_seen = now;
  }

  unfoldable pub refresh :
      ℕ → Option Cap → Option Pos → ConnectedNode Cap Pos → ConnectedNode Cap Pos
  refresh now capability position entry = record entry {
    last_seen = now;
    capability = or_else capability entry.capability;
    last_position = or_else position entry.last_position;
  }

  unfoldable pub upsert :
      ℕ → String → Option Cap → Option Pos → NodeRegistry Cap Pos → NodeRegistry Cap Pos
  unfolding new_node refresh
  upsert now node_id capability position map =
      let entry = unwrap_or (new_node now node_id) (Dict.get node_id map) in
      Dict.insert node_id (refresh now capability position entry) map

  unfoldable pub get_position : String → NodeRegistry Cap Pos → Option Pos
  get_position node_id map = elim (Dict.get node_id map) [ none ↦ none | some n ↦ n.last_position ]

  unfoldable pub get_node : String → NodeRegistry Cap Pos → Option (ConnectedNode Cap Pos)
  get_node node_id map = Dict.get node_id map

  unfoldable pub remove : String → NodeRegistry Cap Pos → NodeRegistry Cap Pos
  remove node_id map = Dict.remove node_id map

-- The calls that change the registry, for its history.
pub data Call (Cap Pos : Type 0) : Type 0 where
  upserts : ℕ → String → Option Cap → Option Pos → Call Cap Pos
  removes : String → Call Cap Pos

module _ {Cap Pos : Type 0} where
  unfoldable pub step : NodeRegistry Cap Pos → Call Cap Pos → NodeRegistry Cap Pos
  step map (upserts now node_id capability position) = upsert now node_id capability position map
  step map (removes node_id) = remove node_id map

  unfoldable pub run : NodeRegistry Cap Pos → List (Call Cap Pos) → NodeRegistry Cap Pos
  run map [] = map
  run map (c ∷ cs) = run (step map c) cs
