-- ===== src/Storage/Sensors/Complete.antt =====
-- Every sensor that src/storage/repositories/sensors.py registers is stored with all its fields.
use sensorctl.Prelude.{
  ℕ, ◌≡◌, refl, sym, ap, ◌∙◌, subst, arith, String, Bool-cases, Option-cases, inl, inr, true, false,
  Option, none, some, List, [], ◌∷◌, ◌++◌, str_eq, eq_iff, if-cases, All, Exception, Result, ok,
  err,
}
use sensorctl.Prelude.Dict.{Dict, lookup, insert, lookup-insert, Listed, Listed-insert, insert_here}
use sensorctl.Prelude.Exec.{Exec, lift, ◌>>=◌, >>=-cases, >>=-through}
use sensorctl.Model.{FieldDefinition, StoredSensor}
use sensorctl.Config.Bus.{BusConfig}
use sensorctl.Config.Sensor.{SensorConfig}
use sensorctl.Config.Load.{AppConfig}
use sensorctl.Storage.Sensors.{
  InstanceRow, SensorTables, Registry, has_identity, find_instance, instance_row, or_add,
  add_instance, select_instance, select_fields, register_known, fingerprint_in, register_one,
  register_all, commit_sensors, register_sensors,
}
use sensorctl.Storage.Sensors.Extends.{IsNumbered, Extends-found}
use sensorctl.Storage.Sensors.Same.{statement-cases, GrowEnd, or_add-GrowEnd}
use sensorctl.Storage.Sensors.Again.{IsRegistered, register_one-GrowEnd}
use sensorctl.Storage.Sensors.Fields.{HasIds, ids_in, AddEnd, add_instance-AddEnd}

-- Every instance of the tables has the fields that belong to its fingerprint.
abbrev pub AreComplete : (String → List FieldDefinition) → SensorTables → Type 0
AreComplete fields_of t =
    (k f : String) (id : ℕ)
    → find_instance k f t.instances ≡ some id
    → HasIds (fields_of f) (ids_in id t)

find_other :
    (k f : String) (xs : List InstanceRow) (row : InstanceRow) (id : ℕ)
    → find_instance k f xs ≡ none
    → find_instance k f (xs ++ row ∷ []) ≡ some id
    → (row.config_fingerprint ≡ f) × (row.id ≡ id)
unfolding find_instance
find_other k f [] row id h e =
    (ground (arith, e, eq_iff row.config_fingerprint f), ground (arith, e))
find_other k f (x ∷ xs) row id h e =
    let none_here : has_identity k f x ≡ false = ground (arith, h) in
    find_other k f xs row id (ground (arith, h, none_here)) (ground (arith, e, none_here))

module _ (g : Registry) (buses : Dict BusConfig)
    (fields_by_sensor : Dict (List FieldDefinition)) where
  -- An instance has all fields of the sensor whose id it has.
  abbrev pub HasAll : String → Dict ℕ → Type 0
  HasAll k ids = (ds : List FieldDefinition) → lookup k fields_by_sensor ≡ some ds → HasIds ds ids

  module _ (fields_of : String → List FieldDefinition) where
    -- The fields of the sensor's driver are those that belong to the sensor's fingerprint.
    abbrev pub Agrees : SensorConfig → Type 0
    Agrees x =
        (f : String) (ds : List FieldDefinition)
        → fingerprint_in g buses x ≡ ok f
        → lookup x.id fields_by_sensor ≡ some ds
        → ds ≡ fields_of f

    -- The tables stay complete, and the id is that of an instance with the fields of the fingerprint.
    abbrev IdEnd : String → Result ℕ × SensorTables → Type 0
    IdEnd f (ok id, u) = AreComplete fields_of u × HasIds (fields_of f) (ids_in id u)
    IdEnd f (err e, u) = Unit

    added-IdEnd :
        (sensor : SensorConfig) (f : String) (t : SensorTables) (r : Result ℕ × SensorTables)
        → IsNumbered t
        → AreComplete fields_of t
        → Agrees sensor
        → fingerprint_in g buses sensor ≡ ok f
        → GrowEnd g (λ id u. find_instance sensor.id f u.instances ≡ some id) t r
        → AddEnd g fields_by_sensor sensor f t r
        → IdEnd f r
    added-IdEnd sensor f t (err e, u) n c agrees known grown a = tt
    added-IdEnd sensor f t (ok id, u) n c agrees known grown a = (complete, there)
      where
        there : HasIds (fields_of f) (ids_in id u)
        there = subst (λ ds. HasIds ds (ids_in id u)) (agrees f a.definitions known a.known) a.there

        complete : AreComplete fields_of u
        complete k f' id' found = elim (Option-cases (find_instance k f' t.instances)) [
          | inl absent ↦
              let (same_print, same_row) =
                find_other k f' t.instances (instance_row g id sensor f) id' absent
                  (ap (find_instance k f') (sym a.instances_are) ∙ found) in
              subst (λ p. HasIds (fields_of p) (ids_in id' u)) same_print
                (subst (λ i. HasIds (fields_of f) (ids_in i u)) same_row there)
          | inr (old, here) ↦
              let (still, same_fields) = Extends-found t u k f' old n grown.0 here in
              let same : old ≡ id' = cc in
              subst (λ i. HasIds (fields_of f') (ids_in i u)) same
                (subst (HasIds (fields_of f')) (sym same_fields) (c k f' old here))
        ]

    or_add-IdEnd :
        (sensor : SensorConfig) (f : String) (t : SensorTables) (found : Option ℕ)
        → IsNumbered t
        → AreComplete fields_of t
        → Agrees sensor
        → fingerprint_in g buses sensor ≡ ok f
        → find_instance sensor.id f t.instances ≡ found
        → IdEnd f (or_add g fields_by_sensor sensor f found t)
    or_add-IdEnd sensor f t (some id) n c agrees known here = (c, c sensor.id f id here)
    or_add-IdEnd sensor f t none n c agrees known here =
        added-IdEnd sensor f t (add_instance g fields_by_sensor sensor f t) n c agrees known
          (or_add-GrowEnd g fields_by_sensor sensor f t none n here)
          (add_instance-AddEnd g fields_by_sensor sensor f t)

    -- What is stored for a sensor has all its fields.
    abbrev StoreEnd : SensorConfig → Result StoredSensor × SensorTables → Type 0
    StoreEnd sensor (ok s, u) = AreComplete fields_of u × HasAll sensor.id s.fields
    StoreEnd sensor (err e, u) = Unit

    abbrev FoundEnd :
        SensorConfig → String → SensorTables → Result (Option ℕ) × SensorTables → Type 0
    FoundEnd sensor f t (ok found, u) = (u ≡ t) × (find_instance sensor.id f t.instances ≡ found)
    FoundEnd sensor f t (err e, u) = Unit

    register_known-StoreEnd :
        (sensor : SensorConfig) (f : String) (t : SensorTables)
        → IsNumbered t
        → AreComplete fields_of t
        → Agrees sensor
        → fingerprint_in g buses sensor ≡ ok f
        → StoreEnd sensor (register_known g fields_by_sensor sensor f t)
    unfolding register_known
    register_known-StoreEnd sensor f t n c q known =
        >>=-through (FoundEnd sensor f t) (StoreEnd sensor) (select_instance g sensor f)
          (λ found. or_add g fields_by_sensor sensor f found >>= select_fields g) t
          (statement-cases g (FoundEnd sensor f t) t _ (λ e. tt) (refl, refl))
          (λ found u (same, here).
            >>=-through (IdEnd f) (StoreEnd sensor) (or_add g fields_by_sensor sensor f found)
              (select_fields g) u
              (subst (λ v. IdEnd f (or_add g fields_by_sensor sensor f found v)) (sym same)
                (or_add-IdEnd sensor f t found n c q known here))
              (λ id v h.
                statement-cases g (StoreEnd sensor) v _ (λ e. tt)
                  (
                    h.0,
                    λ ds here'. subst (λ l. HasIds l (ids_in id v)) (sym (q f ds known here')) h.1,
                  ))
              (λ e v h. tt))
          (λ e u h. tt)

    register_one-StoreEnd :
        (sensor : SensorConfig) (t : SensorTables)
        → IsNumbered t
        → AreComplete fields_of t
        → Agrees sensor
        → StoreEnd sensor (register_one g buses fields_by_sensor sensor t)
    unfolding register_one
    register_one-StoreEnd sensor t n c q =
        >>=-cases (StoreEnd sensor) (lift (fingerprint_in g buses sensor))
          (register_known g fields_by_sensor sensor) t
          (λ f known. register_known-StoreEnd sensor f t n c q known) (λ e _. tt)

    -- The same for all that is stored, with an entry for each enabled sensor.
    pub record AllStored (sensors : List SensorConfig) (before stored : Dict StoredSensor)
        : Type 0 where
      pub whole : (k : String) (s : StoredSensor) → lookup k stored ≡ some s → HasAll k s.fields
      pub kept : (k : String) → Listed k before → Listed k stored
      pub listed : All (λ (x : SensorConfig). x.enabled ≡ true → Listed x.id stored) sensors

    abbrev pub AllEnd :
        List SensorConfig → Dict StoredSensor → Result (Dict StoredSensor) × SensorTables → Type 0
    AllEnd sensors before (ok stored, u) = AllStored sensors before stored × AreComplete fields_of u
    AllEnd sensors before (err e, u) = Unit

    abbrev GrownEnd : SensorConfig → Result StoredSensor × SensorTables → Type 0
    GrownEnd sensor (ok s, u) = IsNumbered u × StoreEnd sensor (ok s, u)
    GrownEnd sensor (err e, u) = Unit

    register_one-GrownEnd :
        (sensor : SensorConfig) (t : SensorTables)
        → IsNumbered t
        → AreComplete fields_of t
        → Agrees sensor
        → GrownEnd sensor (register_one g buses fields_by_sensor sensor t)
    register_one-GrownEnd sensor t n c q =
        both (register_one g buses fields_by_sensor sensor t)
          (register_one-GrowEnd g buses fields_by_sensor sensor t n)
          (register_one-StoreEnd sensor t n c q)
      where
        both :
            (r : Result StoredSensor × SensorTables)
            → GrowEnd g (IsRegistered g buses fields_by_sensor sensor) t r
            → StoreEnd sensor r
            → GrownEnd sensor r
        both (ok s, u) grown h = (grown.0.numbered, h)
        both (err e, u) grown h = tt

    one_more :
        (sensor : SensorConfig) (sensors : List SensorConfig) (before : Dict StoredSensor)
        (s : StoredSensor) (r : Result (Dict StoredSensor) × SensorTables)
        → AllEnd sensors (insert sensor.id s before) r
        → AllEnd (sensor ∷ sensors) before r
    one_more sensor sensors before s (err e, u) h = tt
    one_more sensor sensors before s (ok stored, u) (h, c) = (
      record {
        whole = h.whole;
        kept = λ k there. h.kept k (Listed-insert sensor.id k s before there);
        listed = (λ _. h.kept sensor.id (s, insert_here sensor.id s before), h.listed);
      },
      c,
    )

    none_more :
        (sensor : SensorConfig) (sensors : List SensorConfig) (before : Dict StoredSensor)
        (r : Result (Dict StoredSensor) × SensorTables)
        → sensor.enabled ≡ false
        → AllEnd sensors before r
        → AllEnd (sensor ∷ sensors) before r
    none_more sensor sensors before (err e, u) off h = tt
    none_more sensor sensors before (ok stored, u) off (h, c) =
        (record { whole = h.whole; kept = h.kept; listed = (λ on. cc (on, off), h.listed) }, c)

    whole-insert :
        (k : String) (s : StoredSensor) (before : Dict StoredSensor)
        → HasAll k s.fields
        → ((j : String) (v : StoredSensor) → lookup j before ≡ some v → HasAll j v.fields)
        → (j : String) (v : StoredSensor) → lookup j (insert k s before) ≡ some v
        → HasAll j v.fields
    whole-insert k s before new old j v found = elim (Bool-cases (str_eq k j)) [
      | inl same ↦
          let here : s ≡ v = ground (arith, lookup-insert k j s before, found, same) in
          subst (λ i. HasAll i v.fields) ((eq_iff k j).0 same)
            (subst (λ (w : StoredSensor). HasAll k w.fields) here new)
      | inr other ↦ old j v (ground (arith, lookup-insert k j s before, found, other))
    ]

    pub register_all-AllEnd :
        (sensors : List SensorConfig) (before : Dict StoredSensor) (t : SensorTables)
        → IsNumbered t
        → AreComplete fields_of t
        → All Agrees sensors
        → ((k : String) (s : StoredSensor) → lookup k before ≡ some s → HasAll k s.fields)
        → AllEnd sensors before (register_all g buses fields_by_sensor sensors before t)
    unfolding register_all
    register_all-AllEnd [] before t n c q whole =
        (record { whole = whole; kept = λ k h. h; listed = tt }, c)
    register_all-AllEnd (sensor ∷ sensors) before t n c q whole =
        let P = AllEnd (sensor ∷ sensors) before in
        if-cases (λ (m : Exec SensorTables (Dict StoredSensor)). P (m t)) sensor.enabled _ _
          (λ _.
            >>=-through (GrownEnd sensor) P (register_one g buses fields_by_sensor sensor) _ t
              (register_one-GrownEnd sensor t n c q.0)
              (λ s u (n', (c', all_fields)).
                one_more sensor sensors before s
                  (register_all g buses fields_by_sensor sensors (insert sensor.id s before) u)
                  (register_all-AllEnd sensors (insert sensor.id s before) u n' c' q.1
                    (whole-insert sensor.id s before all_fields whole)))
              (λ e u h. tt))
          (λ off.
            none_more sensor sensors before (register_all g buses fields_by_sensor sensors before t)
              off (register_all-AllEnd sensors before t n c q.1 whole))

-- A registration that returned: what it returns has an entry for each enabled sensor, with all the
-- fields of each sensor, and the tables stay complete.
pub register_sensors-AllStored :
    (g : Registry) (config : AppConfig) (fields_by_sensor : Dict (List FieldDefinition))
    (fields_of : String → List FieldDefinition) (t u : SensorTables) (stored : Dict StoredSensor)
    → IsNumbered t
    → AreComplete fields_of t
    → All (Agrees g config.buses fields_by_sensor fields_of) config.sensors
    → register_sensors g config fields_by_sensor t ≡ (ok stored, u)
    → AllEnd g config.buses fields_by_sensor fields_of config.sensors [] (ok stored, u)
unfolding register_sensors lookup
register_sensors-AllStored g config fields_by_sensor fields_of t u stored n c agree done =
    let r = register_all g config.buses fields_by_sensor config.sensors [] t in
    returned r (g.refuses r.1)
      (register_all-AllEnd g config.buses fields_by_sensor fields_of config.sensors [] t n c agree
        (λ k s h. cc))
      done
  where
    returned :
        (r : Result (Dict StoredSensor) × SensorTables) (o : Option Exception)
        → AllEnd g config.buses fields_by_sensor fields_of config.sensors [] r
        → commit_sensors g t r o ≡ (ok stored, u)
        → AllEnd g config.buses fields_by_sensor fields_of config.sensors [] (ok stored, u)
    returned (ok d, v) none h e =
        subst (AllEnd g config.buses fields_by_sensor fields_of config.sensors []) e h
    returned (ok d, v) (some x) h e = cc
    returned (err x, v) o h e = cc
