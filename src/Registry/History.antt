-- ===== src/Registry/History.antt =====
-- What peat-sapient/src/registry.rs answers after a history of calls.
use peat_sapient.Base.{
  ℕ, String, ◌≡◌, refl, ap, ◌∙◌, Option, none, some, List, [], ◌∷◌, arith, str_eq, eq_iff, eq_refl,
  if◌then◌else◌, unwrap_or, or_else, inl, inr, Bool-cases, Option-cases,
}
use peat_sapient.Base.Dict
use peat_sapient.Base.Dict.{get-insert, get-remove}
use peat_sapient.Registry.{
  ConnectedNode, NodeRegistry, Call, upserts, removes, new_registry, new_node, refresh, upsert,
  get_position, get_node, remove, step, run,
}

module _ {Cap Pos : Type 0} where
  -- What a message heard at `now` makes of the entry of node `j`: a new value replaces the old one,
  -- and `none` keeps it.
  abbrev pub heard :
      String → ℕ → Option Cap → Option Pos → Option (ConnectedNode Cap Pos) → ConnectedNode Cap Pos
  heard j now c p none = record { node_id = j; capability = c; last_position = p; last_seen = now }
  heard j now c p (some n) = record {
    node_id = n.node_id;
    capability = or_else c n.capability;
    last_position = or_else p n.last_position;
    last_seen = now;
  }

  -- A call changes the entry of the node that it names, and no other.
  abbrev pub entry_after :
      String → Option (ConnectedNode Cap Pos) → Call Cap Pos → Option (ConnectedNode Cap Pos)
  entry_after j e (upserts now k c p) = if str_eq k j then some (heard j now c p e) else e
  entry_after j e (removes k) = if str_eq k j then none else e

  abbrev pub entry_from :
      String → Option (ConnectedNode Cap Pos) → List (Call Cap Pos) → Option (ConnectedNode Cap Pos)
  entry_from j e [] = e
  entry_from j e (c ∷ cs) = entry_from j (entry_after j e c) cs

  refresh-heard :
      (j : String) (now : ℕ) (c : Option Cap) (p : Option Pos) (e : Option (ConnectedNode Cap Pos))
      → refresh now c p (unwrap_or (new_node now j) e) ≡ heard j now c p e
  unfolding refresh new_node
  refresh-heard j now c p none = ground arith
  refresh-heard j now c p (some n) = refl

  get-step :
      (j : String) (c : Call Cap Pos) (m : NodeRegistry Cap Pos)
      → get_node j (step m c) ≡ entry_after j (get_node j m) c
  unfolding step upsert remove get_node
  get-step j (upserts now k c p) m = rw (get-insert j k) (elim (Bool-cases (str_eq k j)) [
    | inl e ↦ rw ((eq_iff k j).0 e, eq_refl j) (ap some (refresh-heard j now c p (Dict.get j m)))
    | inr e ↦ rw e
  ])
  get-step j (removes k) m = get-remove j k m

  -- After any history, the entry of a node is what its own calls make of it, whatever was called
  -- for the other nodes in between.
  pub get_node-run :
      (j : String) (cs : List (Call Cap Pos)) (m : NodeRegistry Cap Pos)
      → get_node j (run m cs) ≡ entry_from j (get_node j m) cs
  unfolding run
  get_node-run j [] m = refl
  get_node-run j (c ∷ cs) m =
      get_node-run j cs (step m c) ∙ ap (λ e. entry_from j e cs) (get-step j c m)

  -- The last position reported for a node since it was last removed.
  abbrev pub last_reported : String → Option Pos → List (Call Cap Pos) → Option Pos
  last_reported j acc [] = acc
  last_reported j acc (upserts now k c p ∷ cs) =
      last_reported j (if str_eq k j then or_else p acc else acc) cs
  last_reported j acc (removes k ∷ cs) = last_reported j (if str_eq k j then none else acc) cs

  position_of : Option (ConnectedNode Cap Pos) → Option Pos
  position_of none = none
  position_of (some n) = n.last_position

  heard_position :
      (j : String) (now : ℕ) (k : String) (c : Option Cap) (p : Option Pos)
      (e : Option (ConnectedNode Cap Pos))
      → position_of (entry_after j e (upserts now k c p))
        ≡ (if str_eq k j then or_else p (position_of e) else position_of e)
  unfolding position_of
  heard_position j now k c p none = ground arith
  heard_position j now k c p (some n) = ground arith

  position-entry_from :
      (j : String) (e : Option (ConnectedNode Cap Pos)) (cs : List (Call Cap Pos))
      → position_of (entry_from j e cs) ≡ last_reported j (position_of e) cs
  unfolding position_of
  position-entry_from j e [] = refl
  position-entry_from j e (upserts now k c p ∷ cs) =
      position-entry_from j (entry_after j e (upserts now k c p)) cs
      ∙ ap (λ x. last_reported j x cs) (heard_position j now k c p e)
  position-entry_from j e (removes k ∷ cs) =
      position-entry_from j (entry_after j e (removes k)) cs
      ∙ ap (λ x. last_reported j x cs) (ground arith)

  position-get_node :
      (j : String) (m : NodeRegistry Cap Pos) → get_position j m ≡ position_of (get_node j m)
  unfolding get_position get_node position_of
  position-get_node j m = ground arith

  pub get_position-upsert :
      (now : ℕ) (j k : String) (c : Option Cap) (p : Option Pos) (m : NodeRegistry Cap Pos)
      → get_position j (upsert now k c p m)
        ≡ (if str_eq k j then or_else p (get_position j m) else get_position j m)
  unfolding step
  get_position-upsert now j k c p m = rw (position-get_node j m) (
      position-get_node j (upsert now k c p m)
      ∙ ap position_of (get-step j (upserts now k c p) m)
      ∙ heard_position j now k c p (get_node j m))

  -- `get_position` answers the last position reported for the node since it was last removed; a
  -- message without a position keeps it.
  pub get_position-run :
      (j : String) (cs : List (Call Cap Pos))
      → get_position j (run new_registry cs) ≡ last_reported j none cs
  unfolding new_registry Dict.get get_node position_of
  get_position-run j cs =
      position-get_node j (run new_registry cs)
      ∙ ap position_of (get_node-run j cs new_registry)
      ∙ position-entry_from j none cs

  -- Each entry names the node that it is stored under.
  abbrev IsKeyed : NodeRegistry Cap Pos → Type 0
  IsKeyed m = (j : String) (n : ConnectedNode Cap Pos) → get_node j m ≡ some n → n.node_id ≡ j

  step-IsKeyed : (m : NodeRegistry Cap Pos) (c : Call Cap Pos) → IsKeyed m → IsKeyed (step m c)
  step-IsKeyed m (upserts now k c p) h j n e = elim (Option-cases (get_node j m)) [
    | inl old ↦ ground (arith, get-step j (upserts now k c p) m)
    | inr (x, old) ↦ ground (arith, h j x, get-step j (upserts now k c p) m)
  ]
  step-IsKeyed m (removes k) h j n e = ground (arith, h j n, get-step j (removes k) m)

  run-IsKeyed :
      (m : NodeRegistry Cap Pos) (cs : List (Call Cap Pos)) → IsKeyed m → IsKeyed (run m cs)
  unfolding run
  run-IsKeyed m [] h = h
  run-IsKeyed m (c ∷ cs) h = run-IsKeyed (step m c) cs (step-IsKeyed m c h)

  -- After any history, the entry that is found for a node is the node's own.
  pub get_node-keyed :
      (cs : List (Call Cap Pos)) (j : String) (n : ConnectedNode Cap Pos)
      → get_node j (run new_registry cs) ≡ some n
      → n.node_id ≡ j
  unfolding new_registry get_node Dict.get
  get_node-keyed cs j n e = run-IsKeyed new_registry cs (λ i x e'. cc) j n e
