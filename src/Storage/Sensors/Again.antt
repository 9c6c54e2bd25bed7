-- ===== src/Storage/Sensors/Again.antt =====
-- A second registration in src/storage/repositories/sensors.py, of the same configuration.
use sensorctl.Prelude.{
  ℕ, ◌≡◌, refl, sym, subst, ap, ◌∙◌, String, true, false, Bool-cases, inl, inr, Option, none, some,
  List, [], ◌∷◌, if◌then◌else◌, Exception, Result, ok, err,
}
use sensorctl.Prelude.Dict.{Dict, insert}
use sensorctl.Prelude.Exec.{Exec, pure, lift, then_do, ◌>>=◌, >>=-cases, >>=-through}
use sensorctl.Model.{FieldDefinition, StoredSensor}
use sensorctl.Config.Bus.{BusConfig}
use sensorctl.Config.Sensor.{SensorConfig}
use sensorctl.Config.Load.{AppConfig}
use sensorctl.Storage.Sensors.{
  SensorTables, Registry, find_instance, field_ids, unless, statement, or_add, select_fields,
  register_known, fingerprint_in, register_one, register_all, commit_sensors, register_sensors,
}
use sensorctl.Storage.Sensors.Extends.{
  IsNumbered, Extends, nothing-Extends, then-Extends, Extends-found,
}
use sensorctl.Storage.Sensors.Same.{GrowEnd, IsKnown, register_known-GrowEnd}

module _ (g : Registry) (buses : Dict BusConfig)
    (fields_by_sensor : Dict (List FieldDefinition)) where
  accepted_statement :
      {A : Type 0} (u : SensorTables) (m : Exec SensorTables A)
      → g.refuses u ≡ none
      → statement g m u ≡ m u
  accepted_statement u m free = ap (λ o. unless g o m u) free

  known_again :
      (sensor : SensorConfig) (f : String) (s : StoredSensor) (u : SensorTables)
      → g.refuses u ≡ none
      → IsKnown g sensor f s u
      → register_known g fields_by_sensor sensor f u ≡ (ok s, u)
  unfolding register_known
  known_again sensor f s u free (found, fields) =
      let rest = λ (o : Option ℕ). or_add g fields_by_sensor sensor f o >>= select_fields g in
      ap (λ r. then_do r rest)
        (accepted_statement u (λ t. pure (find_instance sensor.id f t.instances) t) free)
      ∙ (ap (λ o. rest o u) found
          ∙ (accepted_statement u
                (λ t.
                  pure
                    (record {
                      instance_id = s.instance_id;
                      fields = field_ids s.instance_id t.fields [];
                    })
                    t)
                free
              ∙ ap (λ d. (ok (record { instance_id = s.instance_id; fields = d }), u))
                  (sym fields)))

  -- A sensor that was registered.
  abbrev pub IsRegistered : SensorConfig → StoredSensor → SensorTables → Type 0
  IsRegistered sensor s u =
      (f : String) × (fingerprint_in g buses sensor ≡ ok f) × IsKnown g sensor f s u

  pub register_one-GrowEnd :
      (sensor : SensorConfig) (t : SensorTables)
      → IsNumbered t
      → GrowEnd g (IsRegistered sensor) t (register_one g buses fields_by_sensor sensor t)
  unfolding register_one
  register_one-GrowEnd sensor t n =
      >>=-cases (GrowEnd g (IsRegistered sensor) t) (lift (fingerprint_in g buses sensor))
        (register_known g fields_by_sensor sensor) t
        (λ f known.
          registered f known (register_known g fields_by_sensor sensor f t)
            (register_known-GrowEnd g fields_by_sensor sensor f t n))
        (λ e _. tt)
    where
      registered :
          (f : String)
          → fingerprint_in g buses sensor ≡ ok f
          → (r : Result StoredSensor × SensorTables) → GrowEnd g (IsKnown g sensor f) t r
          → GrowEnd g (IsRegistered sensor) t r
      registered f known (ok s, u) h = (h.0, (f, known, h.1))
      registered f known (err e, u) h = tt

  one_again :
      (sensor : SensorConfig) (s : StoredSensor) (t u : SensorTables)
      → g.refuses u ≡ none
      → IsNumbered t
      → Extends t u
      → IsRegistered sensor s t
      → register_one g buses fields_by_sensor sensor u ≡ (ok s, u)
  unfolding register_one
  one_again sensor s t u free n x (f, known, (found, fields)) =
      let (found', fields') = Extends-found t u sensor.id f s.instance_id n x found in
      ap (λ r. then_do (r, u) (register_known g fields_by_sensor sensor)) known
      ∙ known_again sensor f s u free (found', fields ∙ sym fields')

  -- What a registration that returned gives when it is run once more.
  abbrev Again : List SensorConfig → Dict StoredSensor → Dict StoredSensor → SensorTables → Type 0
  Again sensors before stored u =
      g.refuses u ≡ none → register_all g buses fields_by_sensor sensors before u ≡ (ok stored, u)

  -- One pass over a sensor that is enabled, and over one that is not.
  module _ (sensor : SensorConfig) (sensors : List SensorConfig) (before : Dict StoredSensor) where
    abbrev rest : StoredSensor → Exec SensorTables (Dict StoredSensor)
    rest s = register_all g buses fields_by_sensor sensors (insert sensor.id s before)

    abbrev active : Exec SensorTables (Dict StoredSensor)
    active = register_one g buses fields_by_sensor sensor >>= rest

    abbrev skipped : Exec SensorTables (Dict StoredSensor)
    skipped = register_all g buses fields_by_sensor sensors before

    pass_enabled :
        (u : SensorTables)
        → sensor.enabled ≡ true
        → register_all g buses fields_by_sensor (sensor ∷ sensors) before u ≡ active u
    unfolding register_all
    pass_enabled u enabled = ap (λ b. (if b then active else skipped) u) enabled

    pass_disabled :
        (u : SensorTables)
        → sensor.enabled ≡ false
        → register_all g buses fields_by_sensor (sensor ∷ sensors) before u ≡ skipped u
    unfolding register_all
    pass_disabled u disabled = ap (λ b. (if b then active else skipped) u) disabled

    registered-Again :
        (s : StoredSensor) (t v : SensorTables) (r : Result (Dict StoredSensor) × SensorTables)
        → sensor.enabled ≡ true
        → Extends t v
        → IsRegistered sensor s v
        → GrowEnd g (Again sensors (insert sensor.id s before)) v r
        → GrowEnd g (Again (sensor ∷ sensors) before) t r
    registered-Again s t v (err e, u) enabled x known h = tt
    registered-Again s t v (ok stored, u) enabled x known h = (
      then-Extends t v u x h.0,
      λ free.
          pass_enabled u enabled
          ∙ (ap (λ r. then_do r rest) (one_again sensor s v u free x.numbered h.0 known)
              ∙ h.1 free),
    )

    skipped-Again :
        (t : SensorTables) (r : Result (Dict StoredSensor) × SensorTables)
        → sensor.enabled ≡ false
        → GrowEnd g (Again sensors before) t r
        → GrowEnd g (Again (sensor ∷ sensors) before) t r
    skipped-Again t (err e, u) disabled h = tt
    skipped-Again t (ok stored, u) disabled h = (h.0, λ free. pass_disabled u disabled ∙ h.1 free)

  register_all-Again :
      (sensors : List SensorConfig) (before : Dict StoredSensor) (t : SensorTables)
      → IsNumbered t
      → GrowEnd g (Again sensors before) t (register_all g buses fields_by_sensor sensors before t)
  unfolding register_all
  register_all-Again [] before t n = (nothing-Extends t n, λ free. refl)
  register_all-Again (sensor ∷ sensors) before t n =
      let P = GrowEnd g (Again (sensor ∷ sensors) before) t in
      elim (Bool-cases sensor.enabled) [
        | inl enabled ↦ subst P (sym (pass_enabled sensor sensors before t enabled)) (
            >>=-through (GrowEnd g (IsRegistered sensor) t) P
              (register_one g buses fields_by_sensor sensor) (rest sensor sensors before) t
              (register_one-GrowEnd sensor t n)
              (λ s v (x, known).
                registered-Again sensor sensors before s t v (rest sensor sensors before s v)
                  enabled x known
                  (register_all-Again sensors (insert sensor.id s before) v x.numbered))
              (λ e v h. tt))
        | inr disabled ↦ subst P (sym (pass_disabled sensor sensors before t disabled)) (
            skipped-Again sensor sensors before t (skipped sensor sensors before t) disabled
              (register_all-Again sensors before t n))
      ]

module _ (g : Registry) (config : AppConfig) (fields_by_sensor : Dict (List FieldDefinition)) where
  -- A registration that returned has only added instances, and fields of those, with new numbers; one
  -- that raised has changed nothing.
  abbrev pub RegisterEnd : SensorTables → Result (Dict StoredSensor) × SensorTables → Type 0
  RegisterEnd t (ok stored, u) = Extends t u
  RegisterEnd t (err e, u) = u ≡ t

  abbrev CommitEnd : SensorTables → Result (Dict StoredSensor) × SensorTables → Type 0
  CommitEnd t (ok stored, u) =
      Extends t u
      × (g.refuses u ≡ none → register_sensors g config fields_by_sensor u ≡ (ok stored, u))
  CommitEnd t (err e, u) = u ≡ t

  commit-CommitEnd :
      (t : SensorTables) (r : Result (Dict StoredSensor) × SensorTables) (o : Option Exception)
      → GrowEnd g (Again g config.buses fields_by_sensor config.sensors []) t r
      → CommitEnd t (commit_sensors g t r o)
  unfolding register_sensors
  commit-CommitEnd t (err e, u) none h = refl
  commit-CommitEnd t (err e, u) (some x) h = refl
  commit-CommitEnd t (ok stored, u) (some x) h = refl
  commit-CommitEnd t (ok stored, u) none h = (
    h.0,
    λ free.
        ap (λ r. commit_sensors g u r (g.refuses r.1)) (h.1 free)
        ∙ ap (commit_sensors g u (ok stored, u)) free,
  )

  register_sensors-CommitEnd :
      (t : SensorTables) → IsNumbered t → CommitEnd t (register_sensors g config fields_by_sensor t)
  unfolding register_sensors
  register_sensors-CommitEnd t n =
      let r = register_all g config.buses fields_by_sensor config.sensors [] t in
      commit-CommitEnd t r (g.refuses r.1)
        (register_all-Again g config.buses fields_by_sensor config.sensors [] t n)

  -- A restart with the same configuration gives every sensor the same instance and the same fields, and
  -- changes nothing: a registration that returned, run once more on the tables that it left, returns
  -- the same, if the database does not refuse it.
  pub register_sensors-again :
      (t u : SensorTables) (stored : Dict StoredSensor)
      → IsNumbered t
      → register_sensors g config fields_by_sensor t ≡ (ok stored, u)
      → g.refuses u ≡ none
      → register_sensors g config fields_by_sensor u ≡ (ok stored, u)
  register_sensors-again t u stored n done free =
      (subst (CommitEnd t) done (register_sensors-CommitEnd t n)).1 free

  -- A registration that returns has only added instances at the end, with numbers that go up from the
  -- last one of an instance, and fields of these instances only, with numbers that go up from the last
  -- one of a field, and no row that was there changes; one that raises, the commit included, leaves the
  -- tables as they were.
  pub register_sensors-RegisterEnd :
      (t : SensorTables)
      → IsNumbered t
      → RegisterEnd t (register_sensors g config fields_by_sensor t)
  register_sensors-RegisterEnd t n =
      ends (register_sensors g config fields_by_sensor t) (register_sensors-CommitEnd t n)
    where
      ends : (r : Result (Dict StoredSensor) × SensorTables) → CommitEnd t r → RegisterEnd t r
      ends (ok stored, u) h = h.0
      ends (err e, u) h = h
