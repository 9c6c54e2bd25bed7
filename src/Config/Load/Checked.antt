-- ===== src/Config/Load/Checked.antt =====
-- What `load_config` of src/config.py ensures of every configuration that it returns, and which
-- exception it raises otherwise.
use sensorctl.Prelude.{
  ℕ, ◌≡◌, refl, subst, String, Bool, true, false, List, [], ◌∷◌, arith, is_empty, starts_with,
  if-cases, All, Result, ok, err, Exception, inl, inr, arith, config_error, Bool-cases, Kind,
  os_error, permission_error, timeout_error, toml_decode_error, sym, ap, ◌∙◌, ◌⊎◌,
}
use sensorctl.Prelude.Dict.{Dict, lookup}
use sensorctl.Config.Toml.{Value, str, array}
use sensorctl.Config.Paths.{FilePath, path_of}
use sensorctl.Config.Bus.{BusConfig}
use sensorctl.Config.Collisions.Topology.{is_topology}
use sensorctl.Config.Load.{
  CollectorConfig, AppConfig, collector_keys, load_collector, equals_one, database_path, as_list,
  load_buses, load_sensors, validate_collisions, Source, unreadable, document, is_load_error,
  parse_source, load_config, top_level_keys, database_keys,
}
use sensorctl.Config.Load.Rules.{
  Loads, Any, Loads-bind, Loads-seq, Loads-step, Loads-require, Loads-forbid, as_table_lem,
  reject_unknown_lem, Within, integer_lem,
}
use sensorctl.Config.Load.Valid.{IsBus, IsSensor, load_bus_lem, load_sensor_lem}
use sensorctl.Config.Load.Topology.{validate_collisions-is_topology}
use sensorctl.Config.Load.Raised.{validate_collisions_lem}

pub record IsCollector (c : CollectorConfig) : Type 0 where
  pub queue : Within 1 1_000_000 c.queue_size
  pub batch : Within 1 100_000 c.batch_size
  pub flush : Within 10 60_000 c.flush_interval_ms
  pub status : Within 100 60_000 c.status_interval_ms
  pub shutdown : Within 1 10 c.shutdown_timeout_s

load_collector_lem : (raw : Value) → Loads IsCollector (load_collector raw)
unfolding load_collector
load_collector_lem raw =
    Loads-bind (Any {A = Dict Value}) IsCollector _ _ (as_table_lem raw "collector") λ values _.
      Loads-seq IsCollector _ _ (reject_unknown_lem values collector_keys "collector") (
        Loads-bind (Within 1 1_000_000) IsCollector _ _
          (integer_lem values "queue_size" 1000 1 1_000_000)
          λ queue_size queue.
            Loads-bind (Within 1 100_000) IsCollector _ _
              (integer_lem values "batch_size" 100 1 100_000)
              λ batch_size batch.
                Loads-bind (Within 10 60_000) IsCollector _ _
                  (integer_lem values "flush_interval_ms" 1000 10 60_000)
                  λ flush_interval_ms flush.
                    Loads-bind (Within 100 60_000) IsCollector _ _
                      (integer_lem values "status_interval_ms" 1000 100 60_000)
                      λ status_interval_ms status.
                        Loads-bind (Within 1 10) IsCollector _ _
                          (integer_lem values "shutdown_timeout_s" 10 1 10)
                          λ shutdown_timeout_s shutdown. record {
                            queue = queue;
                            batch = batch;
                            flush = flush;
                            status = status;
                            shutdown = shutdown;
                          })

-- Every bus under its own name.
abbrev pub AreBuses : (ℕ → Bool) → Dict BusConfig → Type 0
AreBuses u [] = Unit {0}
AreBuses u ((name, bus) ∷ rest) = IsBus u name bus × AreBuses u rest

load_buses_lem : (u : ℕ → Bool) (raw : Dict Value) → Loads (AreBuses u) (load_buses u raw)
unfolding load_buses
load_buses_lem u [] = tt
load_buses_lem u ((name, value) ∷ rest) =
    Loads-bind (IsBus u name) (AreBuses u) _ _ (load_bus_lem u name value) λ bus one.
      Loads-bind (AreBuses u) (AreBuses u) _ _ (load_buses_lem u rest) λ buses others. (one, others)

load_sensors_lem : (raw : List Value) → Loads (All IsSensor) (load_sensors raw)
unfolding load_sensors
load_sensors_lem [] = tt
load_sensors_lem (value ∷ rest) =
    Loads-bind IsSensor (All IsSensor) _ _ (load_sensor_lem value) λ sensor one.
      Loads-bind (All IsSensor) (All IsSensor) _ _ (load_sensors_lem rest)
        λ sensors others. (one, others)

-- The path of the database comes from an absolute text.
abbrev pub Absolute : FilePath → Type 0
Absolute path = (text : String) × (starts_with text "/" ≡ true) × (path ≡ path_of text)

database_path_lem : (v : Value) → Loads Absolute (database_path v)
unfolding database_path
database_path_lem (str s) =
    if-cases (Loads Absolute) (starts_with s "/") (ok (path_of s)) _ (λ h. (s, h, refl)) (λ _. refl)
database_path_lem _ = refl

as_list_lem : (v : Value) → Loads (Any {A = List Value}) (as_list v)
unfolding as_list
as_list_lem (array vs) = tt
as_list_lem _ = refl

-- The document was read, or an exception came that the loader turns into its own.
abbrev is_handled : Source → Bool
is_handled (unreadable e) = is_load_error e.kind
is_handled (document t) = true

parse_source_lem :
    (path : FilePath) (source : Source)
    → is_handled source ≡ true
    → Loads (Any {A = Dict Value}) (parse_source path source)
unfolding parse_source
parse_source_lem path (unreadable e) h =
    if-cases (Loads (Any {A = Dict Value})) (is_load_error e.kind) _ _ (λ _. refl)
      (λ other. cc (h, other))
parse_source_lem path (document t) h = tt

pub record IsConfig (u : ℕ → Bool) (config : AppConfig) : Type 0 where
  pub current : config.version ≡ 1
  pub collector : IsCollector config.collector
  pub database : Absolute config.database.path
  pub buses : AreBuses u config.buses
  pub sensors : All IsSensor config.sensors
  pub some_sensor : is_empty config.sensors ≡ false
  pub topology : is_topology config.buses config.sensors ≡ true

load_config_lem :
    (u : ℕ → Bool) (path : FilePath) (source : Source)
    → is_handled source ≡ true
    → Loads (IsConfig u) (load_config u path source)
unfolding load_config
load_config_lem u path source text =
    Loads-bind (Any {A = Dict Value}) Goal _ _ (parse_source_lem path source text) λ raw _.
      Loads-seq Goal _ _ (reject_unknown_lem raw top_level_keys "top-level") (
        Loads-require Goal (equals_one (lookup "version" raw)) _ _ λ _.
          Loads-bind (Any {A = Dict Value}) Goal _ _ (as_table_lem _ "database") λ database _.
            Loads-seq Goal _ _ (reject_unknown_lem database database_keys "database") (
              Loads-bind Absolute Goal _ _ (database_path_lem _) λ database_file absolute.
                Loads-bind (Any {A = Dict Value}) Goal _ _ (as_table_lem _ "buses") λ buses_raw _.
                  Loads-bind (AreBuses u) Goal _ _ (load_buses_lem u buses_raw) λ buses are_buses.
                    Loads-bind (Any {A = List Value}) Goal _ _ (as_list_lem _) λ sensors_raw _.
                      Loads-bind IsCollector Goal _ _ (load_collector_lem _)
                        λ collector is_collector.
                          Loads-bind (All IsSensor) Goal _ _ (load_sensors_lem sensors_raw)
                            λ sensors are_sensors.
                              let config : AppConfig = record {
                                version = 1;
                                collector = collector;
                                database = record { path = database_file };
                                buses = buses;
                                sensors = sensors;
                              } in
                              Loads-forbid Goal (is_empty sensors) _ _ λ some_sensor.
                                Loads-step Goal (validate_collisions config) _
                                  (validate_collisions_lem config)
                                  λ valid. record {
                                    current = refl;
                                    collector = is_collector;
                                    database = absolute;
                                    buses = are_buses;
                                    sensors = are_sensors;
                                    some_sensor = some_sensor;
                                    topology =
                                        ground
                                          (arith, validate_collisions-is_topology config, valid);
                                  }))
  where
    Goal : AppConfig → Type 0
    Goal = IsConfig u

pub ok_of_Loads : {A : Type 0} (Q : A → Type 0) (r : Result A) (v : A) → Loads Q r → r ≡ ok v → Q v
ok_of_Loads Q (ok w) v h e = subst Q (cc) h
ok_of_Loads Q (err x) v h e = cc

pub err_of_Loads :
    {A : Type 0} (Q : A → Type 0) (r : Result A) (x : Exception)
    → Loads Q r
    → r ≡ err x
    → x.kind ≡ config_error
err_of_Loads Q (ok w) x h e = cc
err_of_Loads Q (err y) x h e = ground (arith, h, e)

unhandled_raises :
    (u : ℕ → Bool) (path : FilePath) (source : Source)
    → is_handled source ≡ false
    → (e : Exception) × (source ≡ unreadable e) × (load_config u path source ≡ err e)
unfolding load_config parse_source
unhandled_raises u path (unreadable e) h = (e, refl, rw h refl)
unhandled_raises u path (document t) h = cc

-- Every configuration that `load_config` returns is valid: version 1, each number within its bounds,
-- an absolute database path, each bus under its own name with a device under /dev that fits its type
-- (none for a mock bus), at least one sensor, no empty text in a sensor, each address at most 0x7f,
-- and no collision among buses and sensors.
pub load_config-IsConfig :
    (u : ℕ → Bool) (path : FilePath) (source : Source) (config : AppConfig)
    → load_config u path source ≡ ok config
    → IsConfig u config
load_config-IsConfig u path source config e = elim (Bool-cases (is_handled source)) [
  | inl text ↦
      ok_of_Loads (IsConfig u) (load_config u path source) config
        (load_config_lem u path source text) e
  | inr other ↦ cc (e, (unhandled_raises u path source other).2)
]

-- An OSError or a TOMLDecodeError; every other exception is none of the two.
abbrev pub IsLoadError : Kind → Type 0
IsLoadError kind =
    (kind ≡ os_error)
    ⊎ ((kind ≡ permission_error) ⊎ ((kind ≡ timeout_error) ⊎ (kind ≡ toml_decode_error)))

-- How the loader may fail on a file.
abbrev pub LoadFails : Source → Exception → Type 0
LoadFails (unreadable e) x =
    (IsLoadError e.kind × (x.kind ≡ config_error)) ⊎ ((IsLoadError e.kind → ⊥) × (x ≡ e))
LoadFails (document t) x = x.kind ≡ config_error

is_load_error-true : (kind : Kind) → is_load_error kind ≡ true → IsLoadError kind
is_load_error-true os_error h = inl refl
is_load_error-true permission_error h = inr (inl refl)
is_load_error-true timeout_error h = inr (inr (inl refl))
is_load_error-true toml_decode_error h = inr (inr (inr refl))
is_load_error-true _ h = cc

is_load_error-false : (kind : Kind) → is_load_error kind ≡ false → IsLoadError kind → ⊥
is_load_error-false kind h (inl e) = cc (h, ap is_load_error e)
is_load_error-false kind h (inr (inl e)) = cc (h, ap is_load_error e)
is_load_error-false kind h (inr (inr (inl e))) = cc (h, ap is_load_error e)
is_load_error-false kind h (inr (inr (inr e))) = cc (h, ap is_load_error e)

-- Whatever is wrong in a file that tomllib reads, `load_config` raises `ConfigError` and nothing else.
-- Where opening or reading the file raises, it raises `ConfigError` for an `OSError` or a
-- `TOMLDecodeError`, and lets every other exception through as it is.
pub load_config-config_error :
    (u : ℕ → Bool) (path : FilePath) (source : Source) (x : Exception)
    → load_config u path source ≡ err x
    → LoadFails source x
load_config-config_error u path source x e = elim (Bool-cases (is_handled source)) [
  | inl handled ↦ handled_fails source handled (
      err_of_Loads (IsConfig u) (load_config u path source) x
        (load_config_lem u path source handled) e)
  | inr other ↦
      let (y, there, raised) = unhandled_raises u path source other in
      let same : y ≡ x = cc in
      subst (λ (s : Source). LoadFails s x) (sym there)
        (inr (is_load_error-false y.kind (sym (ap is_handled there) ∙ other), sym same))
]
  where
    handled_fails : (s : Source) → is_handled s ≡ true → x.kind ≡ config_error → LoadFails s x
    handled_fails (unreadable y) h kind = inl (is_load_error-true y.kind h, kind)
    handled_fails (document t) h kind = kind
