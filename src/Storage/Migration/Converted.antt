-- ===== src/Storage/Migration/Converted.antt =====
-- What the rows of a legacy database become in
-- src/storage/migrations/versions/0002_local_millisecond_timestamps.py.
use sensorctl.Prelude.{
  ℕ, ◌≡◌, refl, ap, arith, String, true, false, ◌==◌, Option, none, some, List, [], any, Result, ok,
  err, integrity_error, ◌>>=◌,
}
use sensorctl.Storage.Samples.{SampleRow}
use sensorctl.Storage.Sensors.{InstanceRow}
use sensorctl.Storage.Migration.Legacy.{
  LegacyInstance, LegacySample, LegacyRows, CurrentRows, instance_clash, field_clash,
  measurement_clash, instance_key, field_key, sample_key, measurement_key, insert_rows,
  convert_instance, convert_sample, convert_rows,
}
use sensorctl.Storage.Migration.Inserts.{
  Become, map-Become, InsertEnd, OneEnd, insert_rows-InsertEnd, insert_rows-same,
}
use sensorctl.Storage.Migration.Kept.{
  is_null, legacy_violations, current_violations, HasKeys, InstanceKept, SampleKept,
  untold_instance, untold_sample, has_untold,
}

module _ (strftime : ℕ → Option String) where
  convert_instance-OneEnd :
      (x : LegacyInstance)
      → OneEnd instance_clash instance_key
          (convert_instance strftime)
          (InstanceKept strftime)
          (λ x. (x.id, x.logical_id, x.config_fingerprint))
          (untold_instance strftime)
          x
          (convert_instance strftime x)
  convert_instance-OneEnd x = of_text (strftime x.created_at_ns) refl
    where
      of_text :
          (text : Option String)
          → strftime x.created_at_ns ≡ text
          → OneEnd instance_clash instance_key
              (convert_instance strftime)
              (InstanceKept strftime)
              (λ x. (x.id, x.logical_id, x.config_fingerprint))
              (untold_instance strftime)
              x
              (convert_instance strftime x)
      of_text none e = rw e (refl, ap is_null e)
      of_text (some text) e = rw e (
        record {
          id = refl;
          logical_id = refl;
          driver = refl;
          bus_id = refl;
          location = refl;
          config_fingerprint = refl;
          created_at = e;
        },
        refl,
        ap is_null e,
      )

  convert_sample-OneEnd :
      (x : LegacySample)
      → OneEnd ◌==◌ sample_key
          (convert_sample strftime)
          (SampleKept strftime)
          (λ x. x.id)
          (untold_sample strftime)
          x
          (convert_sample strftime x)
  convert_sample-OneEnd x = of_text (strftime x.wall_time_ns) refl
    where
      of_text :
          (text : Option String)
          → strftime x.wall_time_ns ≡ text
          → OneEnd ◌==◌ sample_key
              (convert_sample strftime)
              (SampleKept strftime)
              (λ x. x.id)
              (untold_sample strftime)
              x
              (convert_sample strftime x)
      of_text none e = rw e (refl, ap is_null e)
      of_text (some text) e = rw e (
        record {
          id = refl;
          sensor_instance_id = refl;
          time = e;
          not_later = omega arith;
          not_earlier = omega arith;
          boot_id = refl;
        },
        refl,
        ap is_null e,
      )

  -- Every row is kept with its keys and references.
  pub record Converted (old : LegacyRows) (rows : CurrentRows) : Type 0 where
    pub instances : Become (InstanceKept strftime) old.instances rows.instances
    pub fields : rows.fields ≡ old.fields
    pub samples : Become (SampleKept strftime) old.samples rows.samples
    pub measurements : rows.measurements ≡ old.measurements
    pub same_violations : current_violations rows ≡ legacy_violations old
    pub all_told : (has_untold strftime) old ≡ false

  abbrev pub ConvertEnd : LegacyRows → Result CurrentRows → Type 0
  ConvertEnd old (ok rows) = Converted old rows
  ConvertEnd old (err e) = (e.kind ≡ integrity_error) × ((has_untold strftime) old ≡ true)

  module _ (old : LegacyRows) where
    with_samples :
        (instances : List InstanceRow) (samples : List SampleRow)
        → Become (InstanceKept strftime) old.instances instances
        → any (untold_instance strftime) old.instances ≡ false
        → Become (SampleKept strftime) old.samples samples
        → any (untold_sample strftime) old.samples ≡ false
        → Converted old (record {
          instances = instances;
          fields = old.fields;
          samples = samples;
          measurements = old.measurements;
        })
    with_samples instances samples i told_i s told_s = record {
      instances = i;
      fields = refl;
      samples = s;
      measurements = refl;
      same_violations =
          rw
            (
              map-Become (InstanceKept strftime) (λ x. x.id) (λ (x : InstanceRow). x.id)
                  old.instances instances (λ x y k. k.id) i,
              map-Become (SampleKept strftime) (λ x. x.id) (λ (x : SampleRow). x.id) old.samples
                  samples (λ x y k. k.id) s,
              map-Become (SampleKept strftime) (λ x. x.sensor_instance_id)
                  (λ (x : SampleRow). x.sensor_instance_id) old.samples samples
                  (λ x y k. k.sensor_instance_id) s,
            )
            refl;
      all_told = rw (told_i, told_s) refl;
    }

  -- The conversion to version 0002 keeps every row. For legacy tables whose unique constraints hold, it
  -- gives tables with the same rows in the same order, the times as their texts, the monotonic time in
  -- whole milliseconds and all else unchanged, and with the same references to a missing parent as
  -- before; or it raises `IntegrityError`, exactly if a time of the tables has no text.
  pub convert_rows-ConvertEnd :
      (old : LegacyRows) → HasKeys old → ConvertEnd old (convert_rows strftime old)
  unfolding convert_rows
  convert_rows-ConvertEnd old keys =
      rw
        (
          insert_rows-same field_clash field_key [] old.fields keys.fields,
          insert_rows-same measurement_clash measurement_key [] old.measurements keys.measurements,
        )
        (ends (insert_rows instance_clash instance_key (convert_instance strftime) [] old.instances)
          (insert_rows ◌==◌ sample_key (convert_sample strftime) [] old.samples)
          (insert_rows-InsertEnd instance_clash instance_key (convert_instance strftime)
            (InstanceKept strftime) _ (untold_instance strftime) [] old.instances
            convert_instance-OneEnd keys.instances)
          (insert_rows-InsertEnd ◌==◌ sample_key (convert_sample strftime) (SampleKept strftime) _
            (untold_sample strftime) [] old.samples convert_sample-OneEnd keys.samples))
    where
      ends :
          (r : Result (List InstanceRow)) (q : Result (List SampleRow))
          → InsertEnd instance_clash instance_key
              (convert_instance strftime)
              (InstanceKept strftime)
              (λ x. (x.id, x.logical_id, x.config_fingerprint))
              (untold_instance strftime)
              old.instances
              r
          → InsertEnd ◌==◌ sample_key
              (convert_sample strftime)
              (SampleKept strftime)
              (λ x. x.id)
              (untold_sample strftime)
              old.samples
              q
          → ConvertEnd old (
              r >>= λ instances.
              (q >>= λ samples. ok (record {
                instances = instances;
                fields = old.fields;
                samples = samples;
                measurements = old.measurements;
              })))
      ends (err e) q (kind, untold) h = (kind, rw untold refl)
      ends (ok instances) (err e) h (kind, untold) = (kind, ground (arith, untold))
      ends (ok instances) (ok samples) (i, told_i) (s, told_s) =
          with_samples old instances samples i told_i s told_s
