-- ===== src/Transform/Registration.antt =====
-- peat-sapient/src/transform/registration.rs.
pub mod Numbers
pub mod Order
use peat_sapient.Base.{
  String, Bool, not, Option, none, some, List, [], ◌∷◌, map, concat, is_empty, filter_map,
  if◌then◌else◌,
}
use peat_sapient.Base.Int.{ℤ, is_num}
use peat_sapient.Base.Dict
use peat_sapient.Base.Dict.{Dict}
use peat_sapient.Float.{Float}
use peat_sapient.Json.{Json}
use peat_sapient.Proto.{Registration, NodeDefinition, ConfigurationData}
use peat_sapient.Schema.{Capability, CapabilityAdvertisement, CapabilityType, OperationalStatus}
use peat_sapient.Transform.Detection.{insert_text}

-- `NodeType` of registration.proto.
pub data NodeType : Type 0 where
  unspecified other radar lidar camera seismic acoustic proximity_sensor passive_rf human chemical
        biological radiation kinetic jammer cyber ldew rfdew mobile_node pointable_node
        fusion_node :
      NodeType

unfoldable pub type_of_number : ℤ → Option NodeType
type_of_number raw =
    if is_num raw 0
    then some unspecified
    else if is_num raw 1
    then some other
    else if is_num raw 2
    then some radar
    else if is_num raw 3
    then some lidar
    else if is_num raw 4
    then some camera
    else if is_num raw 5
    then some seismic
    else if is_num raw 6
    then some acoustic
    else if is_num raw 7
    then some proximity_sensor
    else if is_num raw 8
    then some passive_rf
    else if is_num raw 9
    then some human
    else if is_num raw 10
    then some chemical
    else if is_num raw 11
    then some biological
    else if is_num raw 12
    then some radiation
    else if is_num raw 13
    then some kinetic
    else if is_num raw 14
    then some jammer
    else if is_num raw 15
    then some cyber
    else if is_num raw 16
    then some ldew
    else if is_num raw 17
    then some rfdew
    else if is_num raw 18
    then some mobile_node
    else if is_num raw 19
    then some pointable_node
    else if is_num raw 20
    then some fusion_node
    else none

-- The name that `{nt:?}` prints.
unfoldable pub type_name : NodeType → String
type_name unspecified = "Unspecified"
type_name other = "Other"
type_name radar = "Radar"
type_name lidar = "Lidar"
type_name camera = "Camera"
type_name seismic = "Seismic"
type_name acoustic = "Acoustic"
type_name proximity_sensor = "ProximitySensor"
type_name passive_rf = "PassiveRf"
type_name human = "Human"
type_name chemical = "Chemical"
type_name biological = "Biological"
type_name radiation = "Radiation"
type_name kinetic = "Kinetic"
type_name jammer = "Jammer"
type_name cyber = "Cyber"
type_name ldew = "Ldew"
type_name rfdew = "Rfdew"
type_name mobile_node = "MobileNode"
type_name pointable_node = "PointableNode"
type_name fusion_node = "FusionNode"

unfoldable pub node_type_to_capability_type : NodeType → CapabilityType
node_type_to_capability_type unspecified = CapabilityType.unspecified
node_type_to_capability_type other = CapabilityType.unspecified
node_type_to_capability_type radar = CapabilityType.sensor
node_type_to_capability_type lidar = CapabilityType.sensor
node_type_to_capability_type camera = CapabilityType.sensor
node_type_to_capability_type seismic = CapabilityType.sensor
node_type_to_capability_type acoustic = CapabilityType.sensor
node_type_to_capability_type proximity_sensor = CapabilityType.sensor
node_type_to_capability_type passive_rf = CapabilityType.sensor
node_type_to_capability_type human = CapabilityType.unspecified
node_type_to_capability_type chemical = CapabilityType.sensor
node_type_to_capability_type biological = CapabilityType.sensor
node_type_to_capability_type radiation = CapabilityType.sensor
node_type_to_capability_type kinetic = CapabilityType.payload
node_type_to_capability_type jammer = CapabilityType.payload
node_type_to_capability_type cyber = CapabilityType.communication
node_type_to_capability_type ldew = CapabilityType.payload
node_type_to_capability_type rfdew = CapabilityType.payload
node_type_to_capability_type mobile_node = CapabilityType.mobility
node_type_to_capability_type pointable_node = CapabilityType.mobility
node_type_to_capability_type fusion_node = CapabilityType.compute

-- `config_data.first()`.
unfoldable pub first_config : List ConfigurationData → Option ConfigurationData
first_config [] = none
first_config (c ∷ cs) = some c

module _ {fl : Float} (js : Json fl) where
  open js use {Value, string, array, to_string}

  unfoldable pub metadata : Registration fl → NodeDefinition → Dict Value
  unfolding insert_text first_config
  metadata msg nd =
      let meta =
        insert_text fl js "sapient_name" msg.name
          (insert_text fl js "sapient_icd_version" msg.icd_version []) in
      let meta' =
        if not (is_empty nd.node_sub_type)
        then Dict.insert "sapient_node_sub_type" (array (map string nd.node_sub_type)) meta
        else meta in
      elim (first_config msg.config_data) [
        | none ↦ meta'
        | some cd ↦
            Dict.insert "sapient_model" (string cd.model)
              (Dict.insert "sapient_manufacturer" (string cd.manufacturer) meta')
      ]

  unfoldable pub capability_of :
      String → Registration fl → NodeDefinition → NodeType → Capability fl
  unfolding metadata type_name
  capability_of node_id msg nd nt = record {
    id = concat node_id (concat "/" (type_name nt));
    name = type_name nt;
    capability_type = node_type_to_capability_type nt;
    confidence = fl.decimal32 1 0;
    metadata_json = to_string (metadata msg nd);
  }

  -- The closure of `filter_map`.
  unfoldable pub capability_from :
      String → Registration fl → NodeDefinition → Option (Capability fl)
  unfolding capability_of type_of_number
  capability_from node_id msg nd = elim nd.node_type [
    | none ↦ none
    | some raw ↦ elim (type_of_number raw) [
      | none ↦ none
      | some nt ↦ some (capability_of node_id msg nd nt)
    ]
  ]

  unfoldable pub from_registration : String → Registration fl → CapabilityAdvertisement fl
  unfolding capability_from
  from_registration node_id msg = record {
    node_id = node_id;
    capabilities = filter_map (capability_from node_id msg) msg.node_definition;
    resources = none;
    operational_status = OperationalStatus.ready;
  }
