-- ===== src/Mesh/Subscriber/Agreement.antt =====
-- The subscriber and the translator of peat-mesh-sapient publish the same documents.
use peat_sapient.Base.{ℕ, String, ◌≡◌, refl, Option, none, some, List, [], ◌∷◌, map}
use peat_sapient.Base.Int.{ℤ}
use peat_sapient.Base.Dict
use peat_sapient.Base.Dict.{Dict}
use peat_sapient.Float.{Float}
use peat_sapient.Json.{Json}
use peat_sapient.Error.{Result, ok, err, ◌>>=◌}
use peat_sapient.Proto.{
  Content, registration, registration_ack, status_report, detection_report, task, task_ack, alert,
  alert_ack, error,
}
use peat_sapient.Schema.{Track, TrackPosition}
use peat_sapient.Transform.Detection.{from_detection_report}
use peat_sapient.Bridge.Update.{SapientUpdate, detected}
use peat_sapient.Bridge.Route.{admit, route_detection, route_content}
use peat_sapient.Mesh.Translator.{
  Document, Inbound, carried, not_carried, decode_failed, mapping_failed, track_document, inbound,
}
use peat_sapient.Mesh.Subscriber.{run_bridge_subscriber}

module _ {fl : Float} (js : Json fl) where
  open js use {Value}

  -- The updates that reach the application for one routed message.
  abbrev pub updates_of : Result (SapientUpdate fl) → List (SapientUpdate fl)
  updates_of (ok update) = update ∷ []
  updates_of (err e) = []

  abbrev pub documents_of : Inbound Value → List (Document Value)
  documents_of (carried doc) = doc ∷ []
  documents_of not_carried = []
  documents_of (decode_failed e) = []
  documents_of (mapping_failed e) = []

  detected-agrees :
      (node_id : String) (r : Result (Track fl))
      → documents_of (track_document js r)
        ≡ map
            (λ p. p.1)
            (run_bridge_subscriber js (updates_of (r >>= λ t. ok (detected node_id t))))
  unfolding track_document run_bridge_subscriber
  detected-agrees node_id (ok track) = refl
  detected-agrees node_id (err e) = refl

  -- For every message, what the translator makes of its content is what the subscriber publishes
  -- for the update that the bridge routes it to, without a rate limit and with the same position
  -- of the sensor.
  pub inbound-published :
      (display : ℤ → String) (made now : ℕ) (node_id : String) (content : Option (Content fl))
      (positions : Dict (TrackPosition fl))
      → documents_of (inbound js node_id content positions).1
        ≡ map
            (λ p. p.1)
            (run_bridge_subscriber js (
              updates_of
                (route_content js display made now node_id content
                  (Dict.get node_id positions)
                  none).1))
  unfolding inbound route_content admit route_detection run_bridge_subscriber
  inbound-published display made now node_id (some (registration _)) positions = refl
  inbound-published display made now node_id (some (registration_ack _)) positions = refl
  inbound-published display made now node_id (some (status_report _)) positions = refl
  inbound-published display made now node_id (some (detection_report dr)) positions =
      detected-agrees node_id (from_detection_report fl js node_id (Dict.get node_id positions) dr)
  inbound-published display made now node_id (some (task _)) positions = refl
  inbound-published display made now node_id (some (task_ack _)) positions = refl
  inbound-published display made now node_id (some (alert _)) positions = refl
  inbound-published display made now node_id (some (alert_ack _)) positions = refl
  inbound-published display made now node_id (some (error _)) positions = refl
  inbound-published display made now node_id none positions = refl
