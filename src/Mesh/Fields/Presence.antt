-- ===== src/Mesh/Fields/Presence.antt =====
-- Which fields peat-sapient/src/mesh_fields.rs writes for a platform.
use peat_sapient.Base.{
  String, false, ◌≡◌, refl, Option, none, some, map, is_empty, str_eq, if◌then◌else◌, inl, inr,
  Bool-cases,
}
use peat_sapient.Base.Dict
use peat_sapient.Base.Dict.{Dict, get-insert}
use peat_sapient.Float.{Float}
use peat_sapient.Json.{Json}
use peat_sapient.Schema.{CapabilityAdvertisement, NodeState, Position}
use peat_sapient.Mesh.Fields.{
  is_specified, operational_status_str, capability_fields, place_fields, state_fields,
  platform_to_fields,
}

module _ {fl : Float} (js : Json fl) where
  open js use {Value, string, array}

  -- A key that the state of a platform is not written under.
  abbrev IsForeign : String → Type 0
  IsForeign k =
      (str_eq "lat" k ≡ false)
      × (str_eq "lon" k ≡ false)
      × (str_eq "hae" k ≡ false)
      × (str_eq "phase" k ≡ false)
      × (str_eq "health" k ≡ false)

  get-place_fields :
      (k : String) (place : Option (Position fl)) (fields : Dict Value)
      → IsForeign k
      → Dict.get k (place_fields js place fields) ≡ Dict.get k fields
  unfolding place_fields
  get-place_fields k none fields h = refl
  get-place_fields k (some p) fields h = elim (Bool-cases (fl.eq p.altitude (fl.decimal 0 0))) [
    | inl e ↦ rw (e, get-insert, h.1, get-insert, h.0)
    | inr e ↦ rw (e, get-insert, h.2, get-insert, h.1, get-insert, h.0)
  ]

  get-state_fields :
      (k : String) (state : Option (NodeState fl)) (fields : Dict Value)
      → IsForeign k
      → Dict.get k (state_fields js state fields) ≡ Dict.get k fields
  unfolding state_fields
  get-state_fields k none fields h = refl
  get-state_fields k (some s) fields h = rw (get-place_fields, get-insert, h.3, get-insert, h.4)

  get-capability_fields :
      (adv : CapabilityAdvertisement fl)
      → let names = map (λ c. c.name) adv.capabilities in
        let fields = capability_fields js adv in
        (Dict.get "capabilities" fields
          ≡ (if is_empty names then none else some (array (map string names))))
        × (Dict.get "operational_status" fields ≡ (
            if is_specified adv.operational_status
            then some (string (operational_status_str adv.operational_status))
            else none))
  unfolding capability_fields Dict.get Dict.insert
  get-capability_fields adv = elim (Bool-cases (is_empty (map (λ c. c.name) adv.capabilities))) [
    | inl e ↦ elim (Bool-cases (is_specified adv.operational_status)) [
      | inl e' ↦ rw (e, e', capability_fields) (refl, refl)
      | inr e' ↦ rw (e, e', capability_fields) (refl, refl)
    ]
    | inr e ↦ elim (Bool-cases (is_specified adv.operational_status)) [
      | inl e' ↦ rw (e, e', capability_fields) (refl, refl)
      | inr e' ↦ rw (e, e', capability_fields) (refl, refl)
    ]
  ]

  -- Whatever the state, a platform document has a list of capabilities exactly when there are some,
  -- and an operational status exactly when it is specified: a document made without them does not
  -- overwrite what an earlier one said.
  pub platform_to_fields-presence :
      (adv : CapabilityAdvertisement fl) (state : Option (NodeState fl))
      → let names = map (λ c. c.name) adv.capabilities in
        let fields = (platform_to_fields js adv state).1 in
        (Dict.get "capabilities" fields
          ≡ (if is_empty names then none else some (array (map string names))))
        × (Dict.get "operational_status" fields ≡ (
            if is_specified adv.operational_status
            then some (string (operational_status_str adv.operational_status))
            else none))
  unfolding platform_to_fields
  platform_to_fields-presence adv state =
      let foreign : IsForeign "capabilities" = (refl, refl, refl, refl, refl) in
      let foreign' : IsForeign "operational_status" = (refl, refl, refl, refl, refl) in
      rw
        (
          get-state_fields "capabilities" state (capability_fields js adv) foreign,
          get-state_fields "operational_status" state (capability_fields js adv) foreign',
        )
        (get-capability_fields adv)
