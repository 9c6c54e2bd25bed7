-- ===== src/Storage/Sensors/Fields.antt =====
-- The fields that an instance has after src/storage/repositories/sensors.py has added it.
use sensorctl.Prelude.{
  ℕ, suc, ◌≡◌, refl, sym, ◌∙◌, subst, arith, String, some, List, [], ◌∷◌, ◌++◌, ◌==◌, any,
  if◌then◌else◌, if-cases, All, Result, ok, err, raise, or_raise, or_raise-eq-ok, key_error,
  integrity_error,
}
use sensorctl.Prelude.Dict.{Dict, lookup, insert}
use sensorctl.Prelude.Exec.{pure, lift, ◌>>=◌, ◌>>◌, >>=-cases, >>=-through}
use sensorctl.Model.{FieldDefinition}
use sensorctl.Config.Sensor.{SensorConfig}
use sensorctl.Prelude.Dict.{Listed, Listed-insert}
use sensorctl.Prelude.Dict.{insert_here}
use sensorctl.Storage.Sensors.{
  FieldRow, SensorTables, Registry, has_identity, field_ids, has_field, instance_row,
  insert_instance, field_row, insert_field, insert_fields, add_instance,
}
use sensorctl.Storage.Sensors.Same.{statement-cases}

-- Each of the fields has an id.
abbrev pub HasIds : List FieldDefinition → Dict ℕ → Type 0
HasIds ds ids = All (λ (d : FieldDefinition). Listed d.name ids) ds

-- The ids of the fields of an instance in the tables.
abbrev pub ids_in : ℕ → SensorTables → Dict ℕ
ids_in instance_id t = field_ids instance_id t.fields []

field_ids-last :
    (instance_id : ℕ) (fs : List FieldRow) (f : FieldRow) (d : Dict ℕ)
    → field_ids instance_id (fs ++ f ∷ []) d ≡ (
        if f.sensor_instance_id == instance_id
        then insert f.name f.id (field_ids instance_id fs d)
        else field_ids instance_id fs d)
unfolding field_ids
field_ids-last instance_id [] f d = refl
field_ids-last instance_id (x ∷ fs) f d = field_ids-last instance_id fs f _

module _ (g : Registry) where
  -- No field loses its id, and the new ones have one; the instances stay.
  record Filled (instance_id : ℕ) (ds : List FieldDefinition) (t u : SensorTables) : Type 0 where
    kept : (name : String) → Listed name (ids_in instance_id t) → Listed name (ids_in instance_id u)
    there : HasIds ds (ids_in instance_id u)
    instances_same : u.instances ≡ t.instances

  abbrev FillEnd :
      ℕ → List FieldDefinition → SensorTables → Result (Unit {0}) × SensorTables → Type 0
  FillEnd instance_id ds t (ok x, u) = Filled instance_id ds t u
  FillEnd instance_id ds t (err e, u) = Unit

  insert_field-FillEnd :
      (instance_id : ℕ) (d : FieldDefinition) (t : SensorTables)
      → FillEnd instance_id (d ∷ []) t (insert_field g instance_id d t)
  unfolding insert_field
  insert_field-FillEnd instance_id d t =
      statement-cases g (FillEnd instance_id (d ∷ []) t) t _ (λ e. tt)
        (if-cases (FillEnd instance_id (d ∷ []) t) (has_field instance_id d.name t.fields)
          (raise integrity_error "UNIQUE constraint failed", t) _ (λ _. tt)
          (λ _. record {
            kept = λ name h.
                subst (Listed name) (sym new)
                  (Listed-insert d.name name (suc t.last_field) (ids_in instance_id t) h);
            there = (subst (Listed d.name) (sym new) (here (ids_in instance_id t)), tt);
            instances_same = refl;
          }))
    where
      row : FieldRow
      row = field_row g (suc t.last_field) instance_id d

      new :
          field_ids instance_id (t.fields ++ row ∷ []) []
          ≡ insert d.name (suc t.last_field) (ids_in instance_id t)
      new = ground (arith, field_ids-last instance_id t.fields row [])

      here : (ids : Dict ℕ) → Listed d.name (insert d.name (suc t.last_field) ids)
      here ids = (suc t.last_field, insert_here d.name (suc t.last_field) ids)

  insert_fields-FillEnd :
      (instance_id : ℕ) (ds : List FieldDefinition) (t : SensorTables)
      → FillEnd instance_id ds t (insert_fields g instance_id ds t)
  unfolding insert_fields
  insert_fields-FillEnd instance_id [] t = record {
    kept = λ name h. h;
    there = tt;
    instances_same = refl;
  }
  insert_fields-FillEnd instance_id (d ∷ ds) t =
      >>=-through (FillEnd instance_id (d ∷ []) t) (FillEnd instance_id (d ∷ ds) t)
        (insert_field g instance_id d) (λ _. insert_fields g instance_id ds) t
        (insert_field-FillEnd instance_id d t)
        (λ _ u first.
          both u first (insert_fields g instance_id ds u) (insert_fields-FillEnd instance_id ds u))
        (λ e u h. tt)
    where
      both :
          (u : SensorTables)
          → Filled instance_id (d ∷ []) t u
          → (r : Result (Unit {0}) × SensorTables) → FillEnd instance_id ds u r
          → FillEnd instance_id (d ∷ ds) t r
      both u first (ok x, v) rest = record {
        kept = λ name h. rest.kept name (first.kept name h);
        there = (rest.kept d.name first.there.0, rest.there);
        instances_same = rest.instances_same ∙ first.instances_same;
      }
      both u first (err e, v) rest = tt

  -- One instance was added, and it has all the fields of its sensor.
  pub record AddedFor (fields_by_sensor : Dict (List FieldDefinition)) (sensor : SensorConfig)
      (f : String) (t : SensorTables) (id : ℕ) (u : SensorTables) : Type 0 where
    pub definitions : List FieldDefinition
    pub known : lookup sensor.id fields_by_sensor ≡ some definitions
    pub there : HasIds definitions (ids_in id u)
    pub instances_are : u.instances ≡ t.instances ++ instance_row g id sensor f ∷ []

  abbrev pub AddEnd :
      Dict (List FieldDefinition)
      → SensorConfig
      → String
      → SensorTables
      → Result ℕ × SensorTables
      → Type 0
  AddEnd fields_by_sensor sensor f t (ok id, u) = AddedFor fields_by_sensor sensor f t id u
  AddEnd fields_by_sensor sensor f t (err e, u) = Unit

  -- The insert of the instance alone.
  abbrev RowEnd : SensorConfig → String → SensorTables → Result ℕ × SensorTables → Type 0
  RowEnd sensor f t (ok id, u) = u.instances ≡ t.instances ++ instance_row g id sensor f ∷ []
  RowEnd sensor f t (err e, u) = Unit

  insert_instance-RowEnd :
      (sensor : SensorConfig) (f : String) (t : SensorTables)
      → RowEnd sensor f t (insert_instance g sensor f t)
  unfolding insert_instance
  insert_instance-RowEnd sensor f t =
      statement-cases g (RowEnd sensor f t) t _ (λ e. tt)
        (if-cases (RowEnd sensor f t) (any (has_identity sensor.id f) t.instances) _ _ (λ _. tt)
          (λ _. refl))

  pub add_instance-AddEnd :
      (fields_by_sensor : Dict (List FieldDefinition)) (sensor : SensorConfig) (f : String)
      (t : SensorTables)
      → AddEnd fields_by_sensor sensor f t (add_instance g fields_by_sensor sensor f t)
  unfolding add_instance
  add_instance-AddEnd fields_by_sensor sensor f t =
      let P = AddEnd fields_by_sensor sensor f t in
      let find = or_raise (lookup sensor.id fields_by_sensor) key_error sensor.id in
      let insert_all = λ (id : ℕ) (ds : List FieldDefinition). insert_fields g id ds >> pure id in
      >>=-through (RowEnd sensor f t) P (insert_instance g sensor f)
        (λ id. lift find >>= insert_all id) t (insert_instance-RowEnd sensor f t)
        (λ id u row.
          >>=-cases P (lift find) (insert_all id) u
            (λ ds found.
              >>=-through (FillEnd id ds u) P (insert_fields g id ds) (λ _. pure id) u
                (insert_fields-FillEnd id ds u)
                (λ _ v filled. record {
                  definitions = ds;
                  known =
                      or_raise-eq-ok (lookup sensor.id fields_by_sensor) key_error sensor.id found;
                  there = filled.there;
                  instances_are = filled.instances_same ∙ row;
                })
                (λ e v h. tt))
            (λ e _. tt))
        (λ e u h. tt)
