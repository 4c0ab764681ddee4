-- ===== src/Mesh/Subscriber.antt =====
-- peat-mesh-sapient/src/subscriber.rs. What a node does with a document is its own: the model is the
-- list of documents published, each with its collection.
pub mod Agreement
use peat_sapient.Base.{String, Option, none, some, List, [], ◌∷◌, filter_map}
use peat_sapient.Float.{Float}
use peat_sapient.Json.{Json}
use peat_sapient.Bridge.Update.{
  SapientUpdate, registered, status_updated, detected, alerted, alert_acknowledged,
  task_acknowledged, ignored, node_disconnected,
}
use peat_sapient.Mesh.Fields.{track_to_fields, platform_to_fields}
use peat_sapient.Mesh.Translator.{Document, document_from_fields, status_document}

module _ {fl : Float} (js : Json fl) where
  open js use {Value}

  -- The `match update`: the collection and the document, if there is one.
  unfoldable pub publication : SapientUpdate fl → Option (String × Document Value)
  unfolding document_from_fields status_document
  publication (registered node_id adv) =
      some ("platforms", document_from_fields (platform_to_fields js adv none))
  publication (status_updated node_id state delta) =
      some ("platforms", status_document js node_id state delta)
  publication (detected node_id track) =
      some ("tracks", document_from_fields (track_to_fields js track))
  publication (alerted _ _) = none
  publication (alert_acknowledged _ _ _ _) = none
  publication (task_acknowledged _ _ _ _ _) = none
  publication (ignored _) = none
  publication (node_disconnected _) = none

  unfoldable pub run_bridge_subscriber : List (SapientUpdate fl) → List (String × Document Value)
  unfolding publication
  run_bridge_subscriber = filter_map publication
