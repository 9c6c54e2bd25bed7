-- ===== src/Tests/Storage.antt =====
-- A batch of two samples in the tables of src/storage.
use sensorctl.Prelude.{
  ℕ, ◌≡◌, refl, none, some, Option, [], ◌∷◌, Exception, os_error, err, leb, if◌then◌else◌, length,
}
use sensorctl.Prelude.Int.{pos}
use sensorctl.Prelude.Dict.{Dict, lookup}
use sensorctl.Model.{finite, Sample, StoredSensor}
use sensorctl.Storage.Samples.{
  Tables, field_values, insert_sample, insert_measurement, insert_measurements, write_sample,
  write_rows, write_samples,
}
use sensorctl.Storage.Samples.Written.{Atomic, write_samples-Atomic}

abbrev pub stored : Dict StoredSensor
stored = ("a", record { instance_id = 4; fields = ("value", 9) ∷ [] }) ∷ []

abbrev reading : ℕ → Sample
reading n = record {
  sensor_id = "a";
  time = "t";
  monotonic_ms = n;
  boot_id = "boot";
  values = ("value", finite (pos n) 0) ∷ [];
}

abbrev pub empty : Tables
empty = record { samples = []; measurements = []; last_id = 0 }

abbrev pub full : Exception
full = record { kind = os_error; message = "disk full" }

-- The disk is full once the tables have so many measurements.
abbrev pub room_for : ℕ → Tables → Option Exception
room_for n t = if leb n (length t.measurements) then some full else none

opened : Unit {0}
unfolding write_samples write_rows write_sample insert_sample insert_measurement insert_measurements
    field_values lookup
opened = tt

writes_both :
    (write_samples (room_for 5) stored (reading 1 ∷ reading 2 ∷ []) empty).1.measurements
    ≡ record { sample_id = 1; field_id = 9; value = finite (pos 1) 0 }
      ∷ record { sample_id = 2; field_id = 9; value = finite (pos 2) 0 }
      ∷ []
unfolding opened
writes_both = refl

takes_back :
    write_samples (room_for 1) stored (reading 1 ∷ reading 2 ∷ []) empty ≡ (err full, empty)
unfolding opened
takes_back = refl

write_samples-Atomic_example :
    Atomic stored
      (reading 1 ∷ reading 2 ∷ [])
      empty
      (write_samples (room_for 5) stored (reading 1 ∷ reading 2 ∷ []) empty)
write_samples-Atomic_example =
    write_samples-Atomic (room_for 5) stored (reading 1 ∷ reading 2 ∷ []) empty refl
