-- ===== src/Mesh/Receive/Filter.antt =====
-- The documents that peat-mesh-sapient/src/transport.rs publishes are those of the bridge's subscriber.
use mathlib.Core.List.{append-nil}
use peat_sapient.Base.{
  ℕ, String, ◌≡◌, refl, sym, ◌∙◌, ap, Option, none, some, List, ◌++◌, map, unwrap_or, Option-cases,
  inl, inr,
}
use peat_sapient.Base.Int.{ℤ}
use peat_sapient.Base.Dict
use peat_sapient.Base.Dict.{Dict}
use peat_sapient.Float.{Float}
use peat_sapient.Json.{Json}
use peat_sapient.Codec.{Prost}
use peat_sapient.Error.{Result, ok, err, ◌>>=◌}
use peat_sapient.Proto.{
  SapientMessage, Content, registration, registration_ack, status_report, detection_report, task,
  task_ack, alert, alert_ack, error,
}
use peat_sapient.Schema.{Track}
use peat_sapient.Transform.Detection.{from_detection_report}
use peat_sapient.Bridge.Update.{SapientUpdate, detected}
use peat_sapient.Bridge.Route.{admit, route_detection, route_content}
use peat_sapient.Mesh.Translator.{Document, inbound, decode_inbound, track_document}
use peat_sapient.Mesh.Receive.{Node, Publication, sapient_origin, collection_for, publish, receive}
use peat_sapient.Mesh.Subscriber.{run_bridge_subscriber}
use peat_sapient.Mesh.Subscriber.Agreement.{updates_of}

module _ {fl : Float} (js : Json fl) where
  open js use {Value}

  abbrev pub publication_of : String × Document Value → Publication Value
  publication_of (collection, doc) = record {
    collection = collection;
    document = doc;
    origin = sapient_origin;
  }

  -- What the subscriber publishes for the update of a routed message.
  abbrev pub subscribed_for : Result (SapientUpdate fl) → List (Publication Value)
  subscribed_for r = map publication_of (run_bridge_subscriber js (updates_of js r))

  publish_content : String → Option (Content fl) → Node fl Value → Node fl Value
  publish_content node_id content node = elim (collection_for content) [
    | none ↦ node
    | some collection ↦ publish collection (inbound js node_id content node.positions) node
  ]

  track-published :
      (node_id : String) (r : Result (Track fl)) (node : Node fl Value)
      → (publish "tracks" (node.positions, track_document js r) node).published
        ≡ node.published ++ subscribed_for (r >>= λ t. ok (detected node_id t))
  unfolding publish track_document run_bridge_subscriber
  track-published node_id (ok track) node = refl
  track-published node_id (err e) node = sym (append-nil node.published)

  content-published :
      (display : ℤ → String) (made now : ℕ) (node_id : String) (content : Option (Content fl))
      (node : Node fl Value)
      → (publish_content node_id content node).published
        ≡ node.published
          ++ subscribed_for
              (route_content js display made now node_id content
                (Dict.get node_id node.positions)
                none).1
  unfolding publish_content collection_for publish inbound route_content admit route_detection
      run_bridge_subscriber
  content-published display made now node_id (some (registration _)) node = refl
  content-published display made now node_id (some (status_report _)) node = refl
  content-published display made now node_id (some (detection_report dr)) node =
      track-published node_id
        (from_detection_report fl js node_id (Dict.get node_id node.positions) dr) node
  content-published display made now node_id (some (registration_ack _)) node =
      sym (append-nil node.published)
  content-published display made now node_id (some (task _)) node = sym (append-nil node.published)
  content-published display made now node_id (some (task_ack _)) node =
      sym (append-nil node.published)
  content-published display made now node_id (some (alert _)) node = sym (append-nil node.published)
  content-published display made now node_id (some (alert_ack _)) node =
      sym (append-nil node.published)
  content-published display made now node_id (some (error _)) node = sym (append-nil node.published)
  content-published display made now node_id none node = sym (append-nil node.published)

  receive-decoded :
      (prost : Prost (SapientMessage fl)) (msg : SapientMessage fl) (node : Node fl Value)
      → prost.decode (prost.encode_to_vec msg) ≡ ok msg
      → receive js prost msg node ≡ publish_content (unwrap_or "" msg.node_id) msg.content node
  unfolding receive publish_content decode_inbound
  receive-decoded prost msg node law = elim (Option-cases (collection_for msg.content)) [
    | inl e ↦ rw (receive, publish_content, e) refl
    | inr (collection, e) ↦ rw (receive, publish_content, e) (rw (decode_inbound, law) refl)
  ]

  -- A message that protobuf gives back as it was makes the transport publish, behind what it published
  -- before and with its origin, exactly the collections and documents that the subscriber publishes
  -- for the update that the bridge routes the message to, without a rate limit and with the same
  -- position of the sensor: the test of the collection skips no message that carries a document.
  pub receive-published :
      (prost : Prost (SapientMessage fl)) (display : ℤ → String) (made now : ℕ)
      (msg : SapientMessage fl) (node : Node fl Value)
      → prost.decode (prost.encode_to_vec msg) ≡ ok msg
      → (receive js prost msg node).published
        ≡ node.published
          ++ subscribed_for
              (route_content js display made now
                (unwrap_or "" msg.node_id)
                msg.content
                (Dict.get (unwrap_or "" msg.node_id) node.positions)
                none).1
  receive-published prost display made now msg node law =
      ap (λ (n : Node fl Value). n.published) (receive-decoded prost msg node law)
      ∙ content-published display made now (unwrap_or "" msg.node_id) msg.content node
