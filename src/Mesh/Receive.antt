-- ===== src/Mesh/Receive.antt =====
-- What peat-mesh-sapient/src/transport.rs does with a received message: the body of the `Ok(Some(msg))`
-- arms, the same in the accepted and in the dialled direction. The mesh node is seen through the
-- documents that are handed to `publish_with_origin`, whose failure is only logged.
pub mod Filter
use peat_sapient.Base.{ℕ, String, Option, none, some, List, [], ◌∷◌, ◌++◌}
use peat_sapient.Base.Dict.{Dict}
use peat_sapient.Float.{Float}
use peat_sapient.Json.{Json}
use peat_sapient.Codec.{Prost}
use peat_sapient.Proto.{
  SapientMessage, Content, registration, registration_ack, status_report, detection_report, task,
  task_ack, alert, alert_ack, error,
}
use peat_sapient.Schema.{TrackPosition}
use peat_sapient.Mesh.Translator.{
  Document, Inbound, carried, not_carried, decode_failed, mapping_failed, decode_inbound,
}

-- The collection, the document and the origin that it is published with.
pub record Publication (Value : Type 0) : Type 0 where
  pub collection : String
  pub document : Document Value
  pub origin : String

-- The cache of the translator and what the node was given, in order.
pub record Node (fl : Float) (Value : Type 0) : Type 0 where
  pub positions : Dict (TrackPosition fl)
  pub published : List (Publication Value)

abbrev pub sapient_origin : String
sapient_origin = "sapient"

module _ {fl : Float} where
  unfoldable pub collection_for : Option (Content fl) → Option String
  collection_for (some (detection_report _)) = some "tracks"
  collection_for (some (registration _)) = some "platforms"
  collection_for (some (status_report _)) = some "platforms"
  collection_for (some (registration_ack _)) = none
  collection_for (some (task _)) = none
  collection_for (some (task_ack _)) = none
  collection_for (some (alert _)) = none
  collection_for (some (alert_ack _)) = none
  collection_for (some (error _)) = none
  collection_for none = none

  unfoldable pub publish :
      {Value : Type 0}
      → String
      → Dict (TrackPosition fl) × Inbound Value
      → Node fl Value
      → Node fl Value
  publish collection (positions, carried doc) node = record {
    positions = positions;
    published =
        node.published
        ++ record { collection = collection; document = doc; origin = sapient_origin } ∷ [];
  }
  publish collection (positions, not_carried) node = record node { positions = positions }
  publish collection (positions, decode_failed e) node = record node { positions = positions }
  publish collection (positions, mapping_failed e) node = record node { positions = positions }

module _ {fl : Float} (js : Json fl) (prost : Prost (SapientMessage fl)) where
  open js use {Value}

  unfoldable pub receive : SapientMessage fl → Node fl Value → Node fl Value
  unfolding collection_for publish
  receive msg node = elim (collection_for msg.content) [
    | none ↦ node
    | some collection ↦
        publish collection (decode_inbound js prost (prost.encode_to_vec msg) node.positions) node
  ]
