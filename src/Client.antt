-- ===== src/Client.antt =====
-- The compliance client, peat-sapient/src/bin/sapient_compliance_client.rs: its messages.
-- The times and identifiers that the client makes are an argument. A field that is not listed has its default value.
pub mod Exchange
pub mod Success
pub mod Interop
use peat_sapient.Base.{
  ℕ, zero, suc, ◌+◌, String, Bool, true, false, Option, none, some, List, [], ◌∷◌, ◌++◌, ltb,
  if◌then◌else◌,
}
use peat_sapient.Base.Int.{pos, negsuc}
use peat_sapient.Float.{Float}
use peat_sapient.Error.{Result, ok, err}
use peat_sapient.Proto.{
  SapientMessage, Duration, ModeDefinition, location_units, location_datum, Timestamp, Content,
  Registration, StatusReport, DetectionReport, Task, TaskAck, registration, registration_ack,
  status_report, detection_report, task, task_ack, alert, alert_ack, error, location,
}
use peat_sapient.Connection.{Outcome, done, failed}

-- The values that the client makes: its identifier, the identifiers of two reports and of an object,
-- and the times of its messages.
pub record Made : Type 0 where
  pub node_id : String
  pub report_ids : String × String
  pub object_id : String
  pub stamps : Timestamp × Timestamp × Timestamp × Timestamp

module _ {fl : Float} where
  unfoldable pub message : Timestamp → String → Option String → Content fl → SapientMessage fl
  message stamp node_id destination content = record {
    timestamp = some stamp;
    node_id = some node_id;
    destination_id = destination;
    content = some content;
  }

  abbrev seconds_of : fl.F32 → Duration fl
  seconds_of value = record { units = some (pos 4); value = some value }

  -- The mode of the client, with tasks in one area, given by its latitude and longitude.
  unfoldable pub default_mode : ModeDefinition fl
  default_mode = record {
    mode_name = some "Default";
    mode_type = some (pos 1);
    mode_description = some "Default operating mode";
    settle_time = some (seconds_of (fl.decimal32 1 0));
    task = some (record {
      concurrent_tasks = some (pos 1);
      region_definition = some (record {
        region_type = pos 1 ∷ [];
        region_area =
            record {
              coordinates_oneof = some (location_units (pos 1));
              datum_oneof = some (location_datum (pos 1));
            }
            ∷ [];
      });
    });
  }

  unfoldable pub client_registration : Made → SapientMessage fl
  unfolding message default_mode
  client_registration made = message (made.stamps.0) made.node_id none (
      registration (record {
        node_definition = record { node_type = some (pos 4); node_sub_type = "EO" ∷ [] } ∷ [];
        icd_version = some "BSI Flex 335 v2.0";
        name = some "peat-sapient compliance client";
        short_name = some "peat-cc";
        capabilities =
            record {
              category = some "Sensor";
              type = some "Electro-Optical";
              value = some "1080p";
              units = some "pixels";
            }
            ∷ [];
        status_definition =
            some (record { status_interval = some (seconds_of (fl.decimal32 5 0)) });
        mode_definition = default_mode ∷ [];
        config_data =
            record {
              manufacturer = "DefenseUnicorns";
              model = "peat-sapient";
              software_version = some "0.1.0";
            }
            ∷ [];
      }))

  unfoldable pub client_status : Made → SapientMessage fl
  unfolding message
  client_status made = message (made.stamps.1) made.node_id none (
      status_report (record {
        report_id = some (made.report_ids.0);
        info = some (pos 1);
        system = some (pos 1);
        mode = some "Default";
        power_level = none;
        node_location = none;
        field_of_view = none;
      }))

  unfoldable pub client_detection : Made → SapientMessage fl
  unfolding message
  client_detection made = message (made.stamps.2) made.node_id none (
      detection_report (record {
        report_id = some (made.report_ids.1);
        object_id = some made.object_id;
        location_oneof = some (
            location (record {
              x = some (fl.sub (fl.decimal 0 0) (fl.decimal 18224 4));
              y = some (fl.decimal 511740 4);
              z = some (fl.decimal 100 0);
              x_error = none;
              y_error = none;
              z_error = none;
              coordinate_system = some (pos 1);
              datum = some (pos 1);
              utm_zone = none;
            }));
        detection_confidence = some (fl.decimal32 95 2);
        classification = [];
        behaviour = [];
        velocity_oneof = none;
        colour = none;
        id = none;
      }))

  unfoldable pub client_task_ack : Made → Option String → Task → SapientMessage fl
  unfolding message
  client_task_ack made sender t = message (made.stamps.3) made.node_id sender (
      task_ack (record {
        task_id = t.task_id;
        task_status = some (pos 1);
        reason = "Accepted by peat-sapient compliance client" ∷ [];
      }))
