-- ===== src/Examples/Setup.antt =====
-- Concrete numbers, values and messages for the examples. The numbers stand in for the floating-point
-- ones: they satisfy the laws that the theorems ask for.
use Prim.Native.Nat.{min}
use peat_sapient.Base.{
  ℕ, ◌+◌, ◌-◌, ◌*◌, ◌/◌, ◌^◌, ◌==◌, String, Option, none, some, List, [], ◌∷◌, ltb, leb,
}
use peat_sapient.Base.Int.{ℤ, pos, negsuc}
use peat_sapient.Float.{Float}
use peat_sapient.Json.{Json}
use peat_sapient.Proto.{
  SapientMessage, Timestamp, TaskAck, Location, RangeBearing, DetectionReport, StatusReport,
  Registration, LocationOneof, Content, task,
}
use peat_sapient.Connection.{done}
use peat_sapient.Connection.Tls.{Rustls}
use peat_sapient.Bridge.State.{BridgeConfig, Clock}

abbrev pub numbers : Float
numbers = record {
  F64 = ℕ;
  F32 = ℕ;
  decimal = λ m e. m;
  decimal32 = λ m e. m;
  add = λ a b. a + b;
  sub = λ a b. a - b;
  mul = λ a b. a * b;
  div = λ a b. a / b;
  min = λ a b. min a b;
  le = λ a b. leb a b;
  lt = λ a b. ltb a b;
  eq = λ a b. a == b;
  sqrt = λ a. a;
  sin = λ a. a;
  cos = λ a. a;
  tan = λ a. a;
  atan2 = λ a b. a;
  powi = λ a n. a ^ n;
  powf = λ a b. a ^ b;
  to_radians = λ a. a;
  to_degrees = λ a. a;
  as_secs_f64 = λ n. n / 1000000000;
  as_f32 = λ a. a;
  as_f64 = λ a. a;
  add32 = λ a b. a + b;
  div32 = λ a b. a / b;
  lt32 = λ a b. ltb a b;
  eq32 = λ a b. a == b;
}

abbrev pub texts : Json numbers
texts = record {
  Value = String;
  string = λ s. s;
  array = λ vs. "[..]";
  f64 = λ x. "n";
  f32 = λ x. "n";
  i64 = λ x. "n";
  as_f64 = λ v. none;
  as_str = λ v. some v;
  to_string = λ m. "{..}";
}

abbrev pub display : ℤ → String
display (pos n) = "n"
display (negsuc n) = "-n"

abbrev pub noon : Timestamp
noon = record { seconds = pos 43200; nanos = pos 0 }

abbrev pub clock_at : ℕ → Clock
clock_at t = record { drained = t; enqueued = t; made = t; checked = t; heard = t; stamp = noon }

abbrev pub wrap : Option String → Option (Content numbers) → SapientMessage numbers
wrap node_id content = record {
  timestamp = some noon;
  node_id = node_id;
  destination_id = none;
  content = content;
}

abbrev pub task_message : String → SapientMessage numbers
task_message id = wrap (some "bridge") (
    some (
      task (record {
        task_id = some id;
        task_name = none;
        task_description = none;
        control = some (pos 1);
        task_start_time = none;
        task_end_time = none;
      })))

abbrev pub completed : TaskAck
completed = record { task_id = none; task_status = some (pos 3); reason = "done" ∷ [] }

abbrev pub a_location : Location numbers
a_location = record {
  x = some 4;
  y = some 52;
  z = some 30;
  x_error = some 1;
  y_error = some 1;
  z_error = some 2;
  coordinate_system = some (pos 3);
  datum = none;
  utm_zone = none;
}

abbrev pub a_bearing : RangeBearing numbers
a_bearing = record {
  elevation = none;
  azimuth = some 90;
  range = some 2;
  range_error = some 1;
  coordinate_system = some (pos 3);
}

abbrev pub detection_at : LocationOneof numbers → DetectionReport numbers
detection_at place = record {
  report_id = some "r1";
  object_id = some "o1";
  location_oneof = some place;
  detection_confidence = none;
  classification = [];
  behaviour = [];
  velocity_oneof = none;
  colour = some "red";
  id = none;
}

abbrev pub a_status : StatusReport numbers
a_status = record {
  report_id = none;
  info = some (pos 1);
  system = some (pos 2);
  mode = some "scan";
  power_level = some (some (pos 140));
  node_location = some a_location;
  field_of_view = none;
}

abbrev pub a_registration : Registration numbers
a_registration = record {
  node_definition =
      record { node_type = some (pos 4); node_sub_type = [] }
      ∷ record { node_type = some (pos 99); node_sub_type = [] }
      ∷ record { node_type = some (pos 20); node_sub_type = "edge" ∷ [] }
      ∷ [];
  icd_version = some "2.0";
  name = none;
  short_name = none;
  capabilities = [];
  status_definition = none;
  mode_definition = [];
  config_data = [];
}

abbrev pub a_config : BridgeConfig numbers
a_config = record {
  node_id = "bridge";
  detection_rate_limit = some (record { max_per_second = 10; burst_size = 2 });
  heartbeat_interval = 30;
  task_queue_depth = 2;
  task_ttl = 300;
}

-- A TLS library that accepts everything.
abbrev pub lenient : Rustls
lenient = record {
  File = String;
  Certificate = String;
  PrivateKey = String;
  RootStore = List String;
  Verifier = List String;
  ServerName = String;
  ClientConfig = List String;
  ServerConfig = String;
  open_file = λ path. done path;
  debug = λ path. path;
  certs = λ file. done (file ∷ []);
  private_key = λ file. done (some file);
  empty_store = [];
  add_root = λ cert store. done (cert ∷ store);
  versions = done tt;
  client_auth_cert = λ store chain key. done store;
  no_client_auth = λ store. store;
  build_verifier = λ store. done store;
  single_cert = λ verifier chain key. done key;
  server_name = λ name. done name;
}
