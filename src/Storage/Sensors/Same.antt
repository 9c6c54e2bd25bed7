-- ===== src/Storage/Sensors/Same.antt =====
-- What a second registration in src/storage/repositories/sensors.py finds.
use mathlib.Core.List.{append_assoc, append-nil, map-append}
use sensorctl.Prelude.{
  ℕ, suc, ◌≤◌, ◌<◌, ◌≡◌, refl, sym, subst, ap, ◌∙◌, arith, String, true, Option, none, some, List,
  [], ◌∷◌, ◌++◌, all, any, leb, IsIn, inl, inr, eq_refl, if-cases, Exception, Result, ok, err,
  raise, or_raise, key_error, integrity_error,
}
use sensorctl.Prelude.Dict.{Dict, lookup}
use sensorctl.Prelude.Exec.{Exec, pure, lift, ◌>>=◌, ◌>>◌, >>=-cases, >>=-through}
use sensorctl.Model.{FieldDefinition, StoredSensor}
use sensorctl.Config.Sensor.{SensorConfig}
use sensorctl.Storage.Sensors.{
  InstanceRow, FieldRow, SensorTables, Registry, has_identity, find_instance, field_ids, has_field,
  unless, statement, instance_row, insert_instance, field_row, insert_field, insert_fields,
  add_instance, or_add, select_instance, select_fields, register_known,
}
use sensorctl.Storage.Sensors.Extends.{
  IsNumbered, Extends, Ascends, instance_numbers, Ascends-append, IsIn-append, All-append,
  nothing-Extends, all_both,
}

module _ (g : Registry) where
  -- A part that returns has only extended the tables, and what it returns has the property.
  abbrev pub GrowEnd {ℓ κ} :
      {A : Type ℓ} → (A → SensorTables → Type κ) → SensorTables → Result A × SensorTables → Type κ
  GrowEnd Q t (ok a, u) = Extends t u × Q a u
  GrowEnd Q t (err e, u) = Unit

  pub statement-cases {ℓ κ} :
      {A : Type ℓ} (P : Result A × SensorTables → Type κ) (s : SensorTables)
      (m : Exec SensorTables A)
      → ((e : Exception) → P (err e, s))
      → P (m s)
      → P (statement g m s)
  statement-cases P s m refused h = go (g.refuses s)
    where
      go : (o : Option Exception) → P (unless g o m s)
      go none = h
      go (some e) = refused e

  -- The number of an instance that came since `t` is that of an added one.
  of_new :
      (id : ℕ) (t u : SensorTables)
      → IsNumbered t
      → t.last_instance < id
      → IsIn id (instance_numbers u.instances)
      → (x : Extends t u) → IsIn id (instance_numbers x.instances)
  of_new id t u n new there x = go t.instances n.instances_old (
      subst (IsIn id)
        (ap instance_numbers x.instances_are
          ∙ map-append (λ (r : InstanceRow). r.id) t.instances x.instances)
        there)
    where
      go :
          (old : List InstanceRow)
          → all (λ (r : InstanceRow). leb r.id t.last_instance) old ≡ true
          → IsIn id (instance_numbers old ++ instance_numbers x.instances)
          → IsIn id (instance_numbers x.instances)
      go [] h m = m
      go (r ∷ old) h (inl e) = absurd (ground (arith, h, e, new))
      go (r ∷ old) h (inr m) = go old (ground (arith, h)) m

  -- The tables after the insert of a field of a new instance.
  with_field :
      (t u : SensorTables) (instance_id : ℕ) (d : FieldDefinition)
      → t.last_instance < instance_id
      → instance_id ≤ u.last_instance
      → IsNumbered t
      → IsIn instance_id (instance_numbers u.instances)
      → Extends t u
      → Extends t (record u {
        fields = u.fields ++ field_row g (suc u.last_field) instance_id d ∷ [];
        last_field = suc u.last_field;
      })
  with_field t u instance_id d new known n there x = record {
    instances = x.instances;
    fields = x.fields ++ field_row g (suc u.last_field) instance_id d ∷ [];
    instances_are = x.instances_are;
    fields_are =
        ap (λ l. l ++ field_row g (suc u.last_field) instance_id d ∷ []) x.fields_are
        ∙ append_assoc t.fields x.fields (field_row g (suc u.last_field) instance_id d ∷ []);
    instances_ascend = x.instances_ascend;
    fields_ascend =
        subst (λ l. Ascends t.last_field l (suc u.last_field))
          (sym (map-append (λ (f : FieldRow). f.id) x.fields _))
          (Ascends-append _ u.last_field _ _ (suc u.last_field ∷ []) x.fields_ascend
            (omega arith, omega arith));
    of_added = All-append _ x.fields (_ ∷ []) x.of_added (of_new instance_id t u n new there x, tt);
    fields_new = all_both _ x.fields _ x.fields_new (ground (arith, new));
    no_less = x.no_less;
    numbered = record {
      instances_old = x.numbered.instances_old;
      fields_old = all_both _ u.fields _ x.numbered.fields_old (ground (arith, known));
    };
  }

  -- The instances stay while fields are inserted.
  abbrev Kept : SensorTables → Unit {0} → SensorTables → Type 0
  Kept u x v = (v.instances ≡ u.instances) × (v.last_instance ≡ u.last_instance)

  Kept-GrowEnd :
      (t u v : SensorTables) (r : Result (Unit {0}) × SensorTables)
      → Kept u tt v
      → GrowEnd (Kept v) t r
      → GrowEnd (Kept u) t r
  Kept-GrowEnd t u v (ok x, w) k h = (h.0, (h.1.0 ∙ k.0, h.1.1 ∙ k.1))
  Kept-GrowEnd t u v (err e, w) k h = tt

  insert_field-GrowEnd :
      (t u : SensorTables) (instance_id : ℕ) (d : FieldDefinition)
      → t.last_instance < instance_id
      → instance_id ≤ u.last_instance
      → IsNumbered t
      → IsIn instance_id (instance_numbers u.instances)
      → Extends t u
      → GrowEnd (Kept u) t (insert_field g instance_id d u)
  unfolding insert_field
  insert_field-GrowEnd t u instance_id d new known n there x =
      statement-cases (GrowEnd (Kept u) t) u _ (λ e. tt)
        (if-cases (GrowEnd (Kept u) t) (has_field instance_id d.name u.fields)
          (raise integrity_error "UNIQUE constraint failed", u) _ (λ _. tt)
          (λ _. (with_field t u instance_id d new known n there x, (refl, refl))))

  insert_fields-GrowEnd :
      (t u : SensorTables) (instance_id : ℕ) (ds : List FieldDefinition)
      → t.last_instance < instance_id
      → instance_id ≤ u.last_instance
      → IsNumbered t
      → IsIn instance_id (instance_numbers u.instances)
      → Extends t u
      → GrowEnd (Kept u) t (insert_fields g instance_id ds u)
  unfolding insert_fields
  insert_fields-GrowEnd t u instance_id [] new known n there x = (x, (refl, refl))
  insert_fields-GrowEnd t u instance_id (d ∷ ds) new known n there x =
      >>=-through (GrowEnd (Kept u) t) (GrowEnd (Kept u) t) (insert_field g instance_id d)
        (λ _. insert_fields g instance_id ds) u
        (insert_field-GrowEnd t u instance_id d new known n there x)
        (λ _ v k. Kept-GrowEnd t u v (insert_fields g instance_id ds v) k.1 (
          insert_fields-GrowEnd t v instance_id ds new (omega (arith, known, k.1.1)) n
            (subst (λ l. IsIn instance_id (instance_numbers l)) (sym k.1.0) there) k.0))
        (λ e v k. tt)

  -- A new instance: no row had its identity, and now one has.
  abbrev pub IsFound : SensorConfig → String → ℕ → SensorTables → Type 0
  IsFound sensor f id u = find_instance sensor.id f u.instances ≡ some id

  find_last :
      (sensor : SensorConfig) (f : String) (xs : List InstanceRow) (id : ℕ)
      → find_instance sensor.id f xs ≡ none
      → find_instance sensor.id f (xs ++ instance_row g id sensor f ∷ []) ≡ some id
  unfolding find_instance
  find_last sensor f [] id h = ground (arith, eq_refl sensor.id, eq_refl f)
  find_last sensor f (x ∷ xs) id h = ground (arith, h, find_last sensor f xs id)

  abbrev with_instance : SensorConfig → String → SensorTables → SensorTables
  with_instance sensor f t = record t {
    instances = t.instances ++ instance_row g (suc t.last_instance) sensor f ∷ [];
    last_instance = suc t.last_instance;
  }

  rows_later :
      (last : ℕ) (rows : List InstanceRow)
      → all (λ (r : InstanceRow). leb r.id last) rows ≡ true
      → all (λ (r : InstanceRow). leb r.id (suc last)) rows ≡ true
  rows_later last [] h = refl
  rows_later last (r ∷ rows) h = ground (arith, h, rows_later last rows (ground (arith, h)))

  fields_later :
      (last : ℕ) (rows : List FieldRow)
      → all (λ (r : FieldRow). leb r.sensor_instance_id last) rows ≡ true
      → all (λ (r : FieldRow). leb r.sensor_instance_id (suc last)) rows ≡ true
  fields_later last [] h = refl
  fields_later last (r ∷ rows) h = ground (arith, h, fields_later last rows (ground (arith, h)))

  with_instance-Extends :
      (sensor : SensorConfig) (f : String) (t : SensorTables)
      → IsNumbered t
      → Extends t (with_instance sensor f t)
  with_instance-Extends sensor f t n = record {
    instances = instance_row g (suc t.last_instance) sensor f ∷ [];
    fields = [];
    instances_are = refl;
    fields_are = sym (append-nil t.fields);
    instances_ascend = (omega arith, omega arith);
    fields_ascend = omega arith;
    of_added = tt;
    fields_new = refl;
    no_less = omega arith;
    numbered = record {
      instances_old =
          all_both _ t.instances _ (rows_later t.last_instance t.instances n.instances_old)
            (ground arith);
      fields_old = fields_later t.last_instance t.fields n.fields_old;
    };
  }

  abbrev InsertEnd : SensorConfig → String → SensorTables → Result ℕ × SensorTables → Type 0
  InsertEnd sensor f t (ok id, u) = (id ≡ suc t.last_instance) × (u ≡ with_instance sensor f t)
  InsertEnd sensor f t (err e, u) = Unit

  insert_instance-InsertEnd :
      (sensor : SensorConfig) (f : String) (t : SensorTables)
      → InsertEnd sensor f t (insert_instance g sensor f t)
  unfolding insert_instance
  insert_instance-InsertEnd sensor f t =
      statement-cases (InsertEnd sensor f t) t _ (λ e. tt)
        (if-cases (InsertEnd sensor f t) (any (has_identity sensor.id f) t.instances) _ _ (λ _. tt)
          (λ _. (refl, refl)))

  added_last :
      (sensor : SensorConfig) (f : String) (t : SensorTables)
      → IsIn (suc t.last_instance) (instance_numbers (with_instance sensor f t).instances)
  added_last sensor f t =
      subst (IsIn (suc t.last_instance))
        (sym (map-append (λ (r : InstanceRow). r.id) t.instances _))
        (IsIn-append _ _ (suc t.last_instance ∷ []) (inr (inl refl)))

  add_instance-GrowEnd :
      (fields_by_sensor : Dict (List FieldDefinition)) (sensor : SensorConfig) (f : String)
      (t : SensorTables)
      → IsNumbered t
      → find_instance sensor.id f t.instances ≡ none
      → GrowEnd (IsFound sensor f) t (add_instance g fields_by_sensor sensor f t)
  unfolding add_instance
  add_instance-GrowEnd fields_by_sensor sensor f t n absent =
      let P = GrowEnd (IsFound sensor f) t in
      let insert_all = λ (id : ℕ) (ds : List FieldDefinition). insert_fields g id ds >> pure id in
      >>=-through (InsertEnd sensor f t) P (insert_instance g sensor f)
        (λ id.
          lift (or_raise (lookup sensor.id fields_by_sensor) key_error sensor.id) >>= insert_all id)
        t (insert_instance-InsertEnd sensor f t)
        (λ id u (is_new, grown).
          >>=-cases P (lift (or_raise (lookup sensor.id fields_by_sensor) key_error sensor.id))
            (insert_all id) u
            (λ ds _.
              >>=-through (GrowEnd (Kept u) t) P (insert_fields g id ds) (λ _. pure id) u
                (insert_fields-GrowEnd t u id ds (omega (arith, is_new))
                  (omega (arith, is_new, ap (λ (v : SensorTables). v.last_instance) grown)) n
                  (subst (λ (v : SensorTables). IsIn id (instance_numbers v.instances)) (sym grown)
                    (subst (λ k. IsIn k (instance_numbers (with_instance sensor f t).instances))
                      (sym is_new) (added_last sensor f t)))
                  (subst (Extends t) (sym grown) (with_instance-Extends sensor f t n)))
                (λ _ v k. (
                  k.0,
                  ap (find_instance sensor.id f)
                        (k.1.0 ∙ ap (λ (v : SensorTables). v.instances) grown)
                      ∙ (find_last sensor f t.instances (suc t.last_instance) absent
                          ∙ ap some (sym is_new)),
                ))
                (λ e v k. tt))
            (λ e _. tt))
        (λ e u h. tt)

  -- A registered sensor: its identity is found, with these fields.
  abbrev pub IsKnown : SensorConfig → String → StoredSensor → SensorTables → Type 0
  IsKnown sensor f s u =
      (find_instance sensor.id f u.instances ≡ some s.instance_id)
      × (s.fields ≡ field_ids s.instance_id u.fields [])

  pub or_add-GrowEnd :
      (fields_by_sensor : Dict (List FieldDefinition)) (sensor : SensorConfig) (f : String)
      (t : SensorTables) (found : Option ℕ)
      → IsNumbered t
      → find_instance sensor.id f t.instances ≡ found
      → GrowEnd (IsFound sensor f) t (or_add g fields_by_sensor sensor f found t)
  or_add-GrowEnd fields_by_sensor sensor f t none n here =
      add_instance-GrowEnd fields_by_sensor sensor f t n here
  or_add-GrowEnd fields_by_sensor sensor f t (some id) n here = (nothing-Extends t n, here)

  abbrev SelectEnd :
      SensorConfig → String → SensorTables → Result (Option ℕ) × SensorTables → Type 0
  SelectEnd sensor f t (ok found, u) = (u ≡ t) × (find_instance sensor.id f t.instances ≡ found)
  SelectEnd sensor f t (err e, u) = Unit

  pub register_known-GrowEnd :
      (fields_by_sensor : Dict (List FieldDefinition)) (sensor : SensorConfig) (f : String)
      (t : SensorTables)
      → IsNumbered t
      → GrowEnd (IsKnown sensor f) t (register_known g fields_by_sensor sensor f t)
  unfolding register_known
  register_known-GrowEnd fields_by_sensor sensor f t n =
      let P = GrowEnd (IsKnown sensor f) t in
      let Q : Result (Option ℕ) × SensorTables → Type 0 = SelectEnd sensor f t in
      >>=-through Q P (select_instance g sensor f)
        (λ found. or_add g fields_by_sensor sensor f found >>= select_fields g) t
        (statement-cases Q t _ (λ e. tt) (refl, refl))
        (λ found u (same, here).
          >>=-through (GrowEnd (IsFound sensor f) t) P (or_add g fields_by_sensor sensor f found)
            (select_fields g) u
            (subst (λ v. GrowEnd (IsFound sensor f) t (or_add g fields_by_sensor sensor f found v))
              (sym same) (or_add-GrowEnd fields_by_sensor sensor f t found n here))
            (λ id v h. statement-cases P v _ (λ e. tt) (h.0, (h.1, refl))) (λ e v h. tt))
        (λ e u h. tt)
