-- ===== src/Examples/Meshing.antt =====
-- The documents of the mesh.
use peat_sapient.Base.{ℕ, String, ◌≡◌, refl, Option, none, some, List, [], ◌∷◌}
use peat_sapient.Base.Dict
use peat_sapient.Base.Dict.{Dict}
use peat_sapient.Error.{ok}
use peat_sapient.Codec.{Prost}
use peat_sapient.Json.{Json}
use peat_sapient.Proto.{SapientMessage, Content, status_report, detection_report, range_bearing}
use peat_sapient.Schema.{CapabilityAdvertisement, OperationalStatus}
use peat_sapient.Mesh.Translator.{
  Document, carried, number_at, outbound_message, encode_outbound, inbound, decode_inbound,
}
use peat_sapient.Mesh.Translator.Meaning.{cache_after, last_stated, is_carried, inbound-placed}
use peat_sapient.Mesh.Translator.RoundTrip.{decode_inbound-encode}
use peat_sapient.Transform.Detection.Outcome.{is_placeable}
use peat_sapient.Examples.Setup.{numbers, texts, a_bearing, detection_at, a_status}

abbrev idle : CapabilityAdvertisement numbers
idle = record {
  node_id = "radar";
  capabilities = [];
  resources = none;
  operational_status = OperationalStatus.degraded;
}

abbrev heard : List (String × Option (Content numbers))
heard = ("radar", some (status_report a_status)) ∷ ("camera", none) ∷ []

inbound-placed_example :
    is_carried texts
      (inbound texts "radar"
        (some (detection_report (detection_at (range_bearing a_bearing))))
        (cache_after texts heard [])).1
    ≡ is_placeable (last_stated texts "radar" none heard) (some (range_bearing a_bearing))
inbound-placed_example = inbound-placed texts heard "radar" (detection_at (range_bearing a_bearing))

-- Values that are numbers.
abbrev counts : Json numbers
counts = record {
  Value = ℕ;
  string = λ s. 0;
  array = λ vs. 0;
  f64 = λ x. x;
  f32 = λ x. x;
  i64 = λ x. 0;
  as_f64 = λ v. some v;
  as_str = λ v. none;
  to_string = λ m. "{..}";
}

abbrev place : Dict ℕ
place = ("lat", 52) ∷ ("lon", 4) ∷ []

abbrev sent : SapientMessage numbers
sent = outbound_message counts (some "bridge") "t1" 52 4 place

abbrev one_message : Prost (SapientMessage numbers)
one_message = record { encode_to_vec = λ m. 1 ∷ []; decode = λ bytes. ok sent }

reads_lat : number_at counts "lat" place ≡ some 52
unfolding number_at Dict.get
reads_lat = refl

reads_lon : number_at counts "lon" place ≡ some 4
unfolding number_at Dict.get
reads_lon = refl

decode_inbound-encode_example :
    (encode_outbound counts one_message
        (some "tracks")
        (some "bridge")
        (record { id = some "t1"; fields = place })
      ≡ some (1 ∷ []))
    × ((doc : Document ℕ) × (decode_inbound counts one_message (1 ∷ []) [] ≡ ([], carried doc))
        × (doc.id ≡ some "t1")
        × (number_at counts "lat" doc.fields ≡ some 52)
        × (number_at counts "lon" doc.fields ≡ some 4))
decode_inbound-encode_example =
    decode_inbound-encode counts one_message (some "bridge") "t1" 52 4 place [] reads_lat reads_lon
      refl (λ v x h. refl)
