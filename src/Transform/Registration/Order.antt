-- ===== src/Transform/Registration/Order.antt =====
-- The capabilities that peat-sapient/src/transform/registration.rs advertises, against the numbers of
-- `NodeType` in registration.proto.
use peat_sapient.Base.{
  String, ◌≡◌, refl, sym, ap, ◌∙◌, Option, none, some, List, [], ◌∷◌, concat, filter_map,
}
use peat_sapient.Base.Int.{ℤ}
use peat_sapient.Float.{Float}
use peat_sapient.Json.{Json}
use peat_sapient.Proto.{Registration, NodeDefinition}
use peat_sapient.Schema.{Capability, CapabilityType}
use peat_sapient.Transform.Registration.{
  NodeType, type_of_number, capability_of, capability_from, from_registration,
}
use peat_sapient.Transform.Registration.Numbers.{by_number, coded, coded-by_number}

-- The number of a node definition, where it has one, looked up in the table.
abbrev pub stated_type : NodeDefinition → Option (String × CapabilityType)
stated_type nd = elim nd.node_type [ none ↦ none | some raw ↦ by_number raw ]

coded_type : NodeDefinition → Option (String × CapabilityType)
coded_type nd = elim nd.node_type [ none ↦ none | some raw ↦ coded (type_of_number raw) ]

filter_map-same {ℓ κ} :
    {A : Type ℓ} {B : Type κ} (f g : A → Option B)
    → ((x : A) → f x ≡ g x)
    → (xs : List A) → filter_map f xs ≡ filter_map g xs
filter_map-same f g h [] = refl
filter_map-same {A} {B} f g h (x ∷ xs) =
    ap
      (λ (o : Option B). elim o as (λ _. List B) [
        | none ↦ filter_map f xs
        | some y ↦ y ∷ filter_map f xs
      ])
      (h x)
    ∙ ap (λ (ys : List B). elim (g x) as (λ _. List B) [ none ↦ ys | some y ↦ y ∷ ys ])
        (filter_map-same f g h xs)

number-coded :
    (o : Option ℤ)
    → (elim o [ none ↦ none | some raw ↦ by_number raw ])
      ≡ (elim o [ none ↦ none | some raw ↦ coded (type_of_number raw) ])
number-coded none = refl
number-coded (some raw) = sym (coded-by_number raw)

stated-coded : (nd : NodeDefinition) → stated_type nd ≡ coded_type nd
unfolding coded_type
stated-coded nd = number-coded nd.node_type

module _ {fl : Float} (js : Json fl) where
  -- The fields of a capability that the number of the node type decides.
  abbrev pub Names : String → String × CapabilityType → Capability fl → Type 0
  Names node_id (name, kind) c =
      (c.name ≡ name) × (c.id ≡ concat node_id (concat "/" name)) × (c.capability_type ≡ kind)

  -- One list has a capability for each entry of the other, in order.
  abbrev pub NamesAll : String → List (String × CapabilityType) → List (Capability fl) → Type 0
  NamesAll node_id [] [] = Unit {0}
  NamesAll node_id (e ∷ es) (c ∷ cs) = Names node_id e c × NamesAll node_id es cs
  NamesAll node_id [] (c ∷ cs) = ⊥
  NamesAll node_id (e ∷ es) [] = ⊥

  type-NamesAll :
      (node_id : String) (msg : Registration fl) (nd : NodeDefinition) (nt : Option NodeType)
      (es : List (String × CapabilityType)) (cs : List (Capability fl))
      → NamesAll node_id es cs
      → NamesAll node_id
          (elim (coded nt) [ none ↦ es | some e ↦ e ∷ es ])
          (elim (elim nt as (λ _. Option (Capability fl)) [
            | none ↦ none
            | some t ↦ some (capability_of js node_id msg nd t)
          ]) [ none ↦ cs | some c ↦ c ∷ cs ])
  unfolding capability_of
  type-NamesAll node_id msg nd none es cs rest = rest
  type-NamesAll node_id msg nd (some t) es cs rest = ((refl, refl, refl), rest)

  number-NamesAll :
      (node_id : String) (msg : Registration fl) (nd : NodeDefinition) (o : Option ℤ)
      (es : List (String × CapabilityType)) (cs : List (Capability fl))
      → NamesAll node_id es cs
      → NamesAll node_id
          (elim (elim o as (λ _. Option (String × CapabilityType)) [
            | none ↦ none
            | some raw ↦ coded (type_of_number raw)
          ]) [ none ↦ es | some e ↦ e ∷ es ])
          (elim (elim o as (λ _. Option (Capability fl)) [
            | none ↦ none
            | some raw ↦ elim (type_of_number raw) as (λ _. Option (Capability fl)) [
              | none ↦ none
              | some t ↦ some (capability_of js node_id msg nd t)
            ]
          ]) [ none ↦ cs | some c ↦ c ∷ cs ])
  number-NamesAll node_id msg nd none es cs rest = rest
  number-NamesAll node_id msg nd (some raw) es cs rest =
      type-NamesAll node_id msg nd (type_of_number raw) es cs rest

  capabilities-NamesAll :
      (node_id : String) (msg : Registration fl) (nds : List NodeDefinition)
      → NamesAll node_id
          (filter_map coded_type nds)
          (filter_map (capability_from js node_id msg) nds)
  unfolding capability_from coded_type
  capabilities-NamesAll node_id msg [] = tt
  capabilities-NamesAll node_id msg (nd ∷ nds) =
      number-NamesAll node_id msg nd nd.node_type _ _ (capabilities-NamesAll node_id msg nds)

  -- A registration advertises one capability for each node definition whose number `node_types` lists,
  -- in their order, with the name and the kind that it lists for this number and an identifier
  -- made of the node and the name. Definitions without a number or with another one are left out.
  pub from_registration-NamesAll :
      (node_id : String) (msg : Registration fl)
      → NamesAll node_id
          (filter_map stated_type msg.node_definition)
          (from_registration js node_id msg).capabilities
  unfolding from_registration
  from_registration-NamesAll node_id msg =
      rw (filter_map-same stated_type coded_type stated-coded msg.node_definition)
        (capabilities-NamesAll node_id msg msg.node_definition)
