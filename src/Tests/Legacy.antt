-- ===== src/Tests/Legacy.antt =====
-- The conversion of src/storage/migrations/versions/0002_local_millisecond_timestamps.py on a few rows.
use sensorctl.Prelude.{
  ℕ, ◌≡◌, refl, String, Option, none, some, [], ◌∷◌, ltb, if◌then◌else◌, ok, raise, integrity_error,
}
use sensorctl.Model.{nan}
use sensorctl.Storage.Migration.Legacy.{LegacyRows, CurrentRows, insert_rows, convert_rows}
use sensorctl.Storage.Migration.Kept.{HasKeys}
use sensorctl.Storage.Migration.Converted.{ConvertEnd, convert_rows-ConvertEnd}

-- Times from 5000 on are out of range.
abbrev strftime : ℕ → Option String
strftime t = if ltb t 1000 then some "early" else if ltb t 5000 then some "late" else none

abbrev legacy : ℕ → LegacyRows
legacy t = record {
  instances =
      record {
        id = 1;
        logical_id = "a";
        driver = "bmp280";
        bus_id = "main";
        location = "roof";
        config_fingerprint = "f";
        created_at_ns = 10;
      }
      ∷ [];
  fields =
      record { id = 1; sensor_instance_id = 1; name = "pressure"; unit = "Pa" }
      ∷ record { id = 2; sensor_instance_id = 1; name = "temperature"; unit = "C" }
      ∷ [];
  samples =
      record {
        id = 1;
        sensor_instance_id = 1;
        wall_time_ns = 20;
        monotonic_ns = 1999999;
        boot_id = "boot";
      }
      ∷ record {
        id = 2;
        sensor_instance_id = 1;
        wall_time_ns = t;
        monotonic_ns = 2000000;
        boot_id = "boot";
      }
      ∷ [];
  measurements =
      record { sample_id = 1; field_id = 1; value = nan }
      ∷ record { sample_id = 1; field_id = 2; value = nan }
      ∷ record { sample_id = 2; field_id = 1; value = nan }
      ∷ [];
}

opened : Unit {0}
unfolding convert_rows insert_rows
opened = tt

abbrev converted : CurrentRows
converted = record {
  instances =
      record {
        id = 1;
        logical_id = "a";
        driver = "bmp280";
        bus_id = "main";
        location = "roof";
        config_fingerprint = "f";
        created_at = "early";
      }
      ∷ [];
  fields = (legacy 2000).fields;
  samples =
      record { id = 1; sensor_instance_id = 1; time = "early"; monotonic_ms = 1; boot_id = "boot" }
      ∷ record { id = 2; sensor_instance_id = 1; time = "late"; monotonic_ms = 2; boot_id = "boot" }
      ∷ [];
  measurements = (legacy 2000).measurements;
}

converts : convert_rows strftime (legacy 2000) ≡ ok converted
unfolding opened
converts = refl

out_of_range :
    convert_rows strftime (legacy 9000)
    ≡ raise integrity_error "NOT NULL constraint failed: sample.time"
unfolding opened
out_of_range = refl

legacy-HasKeys : HasKeys (legacy 2000)
legacy-HasKeys = record { instances = refl; fields = refl; samples = refl; measurements = refl }

convert_rows-ConvertEnd_example :
    ConvertEnd strftime (legacy 2000) (convert_rows strftime (legacy 2000))
convert_rows-ConvertEnd_example = convert_rows-ConvertEnd strftime (legacy 2000) legacy-HasKeys
