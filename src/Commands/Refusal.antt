-- ===== src/Commands/Refusal.antt =====
-- How the `validate` command of src/commands.py ends.
use sensorctl.Prelude.{
  ◌≡◌, ap, ◌∙◌, ◌⊎◌, inl, inr, if◌then◌else◌, Result, ok, err, Exception, config_error, ◌<>◌,
  Result-cases, sym, IsIn, subst, some,
}
use sensorctl.Prelude.{◌>>=◌ as ◌>>>=◌, >>=-cases as >>>=-cases, arith}
use sensorctl.Prelude.Int.{ℤ, pos}
use sensorctl.Prelude.Dict.{lookup}
use sensorctl.Config.Paths.{FilePath}
use sensorctl.Config.Sensor.{SensorConfig}
use sensorctl.Config.Load.{AppConfig, Source, unreadable, document, load_config}
use sensorctl.Config.Load.Checked.{IsLoadError, LoadFails, load_config-config_error}
use sensorctl.Hardware.Driver.{SensorDriver}
use sensorctl.Hardware.Registry.{PreparedDrivers, prepare}
use sensorctl.Hardware.Registry.Refusals.{Refused}
use sensorctl.Hardware.Registry.Prepared.{refused_lem}
use sensorctl.Commands.Shell.{Machine, Shell, print_error}
use sensorctl.Commands.Main.{is_caught, validate, prepare_config, run_command, handle, main}
use sensorctl.Commands.Validated.{shown, validate_ok, validate_err}

module _ {D W : Type 0} (m : Machine D W) (path : FilePath) where
  -- An exception of another class came out of `tomllib.load`, or out of the constructor of a driver for a
  -- sensor of the file.
  abbrev pub Foreign : W → Exception → Type 0
  Foreign w e =
      ((m.read_toml path w ≡ unreadable e) × (IsLoadError e.kind → ⊥))
      ⊎ ((config : AppConfig) × (load_config m.unicode_digit path (m.read_toml path w) ≡ ok config)
          × (s : SensorConfig) × (f : SensorConfig → Result (SensorDriver D)) × IsIn s
              config.sensors
          × (lookup s.driver m.factories ≡ some f)
          × (f s ≡ err e))

  -- The configuration is valid, and is described; or it is not, and the reason is printed; or another
  -- exception came, which `main` prints if it is of a class that it catches, and else lets through.
  abbrev pub ValidateEnd : Shell W → Result ℤ × Shell W → Type 0
  ValidateEnd s r =
      ((found : AppConfig × PreparedDrivers D) × (prepare_config m path s.world ≡ ok found)
        × (r ≡ (ok (pos 0), shown m found.0 s)))
      ⊎ (((e : Exception) × (prepare_config m path s.world ≡ err e)
            × (e.kind ≡ config_error)
            × (r ≡ (ok (pos 1), print_error ("error: " <> e.message) s)))
          ⊎ ((e : Exception) × Foreign s.world e
              × (r ≡ (
                  if is_caught e.kind
                  then (ok (pos 1), print_error ("error: " <> e.message) s)
                  else (err e, s)))))

  load_error :
      (source : Source) (e : Exception)
      → LoadFails source e
      → (e.kind ≡ config_error) ⊎ ((source ≡ unreadable e) × (IsLoadError e.kind → ⊥))
  load_error (document t) e kind = inl kind
  load_error (unreadable x) e (inl (known, kind)) = inl kind
  load_error (unreadable x) e (inr (other, same)) =
      inr (
        ap unreadable (sym same),
        subst (λ (y : Exception). IsLoadError y.kind → ⊥) (sym same) other,
      )

  prepare_config_error :
      (w : W) (e : Exception)
      → prepare_config m path w ≡ err e
      → (e.kind ≡ config_error) ⊎ Foreign w e
  unfolding prepare_config
  prepare_config_error w e =
      let source = m.read_toml path w in
      let P = λ (r : Result (AppConfig × PreparedDrivers D)).
        r ≡ err e → (e.kind ≡ config_error) ⊎ Foreign w e in
      let loading = load_config m.unicode_digit path source in
      >>>=-cases P loading
        (λ config. prepare D m.factories config >>>= λ prepared. ok (config, prepared))
        (λ x unread failed. of_source (
          load_error source e
            (load_config-config_error m.unicode_digit path source e (unread ∙ cc))))
        (λ config loaded.
          >>>=-cases P (prepare D m.factories config) (λ prepared. ok (config, prepared))
            (λ x refused failed. of_registry config loaded (
              refused_lem D m.factories m.unicode_digit path source config e loaded (refused ∙ cc)))
            (λ prepared _ failed. cc))
    where
      of_source :
          (e.kind ≡ config_error) ⊎ ((m.read_toml path w ≡ unreadable e) × (IsLoadError e.kind → ⊥))
          → (e.kind ≡ config_error) ⊎ Foreign w e
      of_source (inl kind) = inl kind
      of_source (inr other) = inr (inl other)

      of_registry :
          (config : AppConfig)
          → load_config m.unicode_digit path (m.read_toml path w) ≡ ok config
          → Refused D m.factories config.sensors e
          → (e.kind ≡ config_error) ⊎ Foreign w e
      of_registry config loaded (inl kind) = inl kind
      of_registry config loaded (inr (s, f, known, found, made)) =
          inr (inr (config, loaded, s, f, known, found, made))

  -- `validate` ends with 0 and a line that describes the valid configuration, or with 1 and a line with
  -- the reason of the `ConfigError`. Only where reading the file raised neither an `OSError` nor a
  -- `TOMLDecodeError`, or the constructor of a driver raised for a sensor of the file, it ends by that
  -- exception: with 1 and a line if `main` catches its class, and else the exception leaves `main`. It
  -- changes nothing else.
  pub main-ValidateEnd : (s : Shell W) → ValidateEnd s (main m (validate path) s)
  unfolding main run_command
  main-ValidateEnd s = elim (Result-cases (prepare_config m path s.world)) [
    | inl (found, valid) ↦ inl (found, valid, ap (handle m) (validate_ok m path s found valid))
    | inr (e, invalid) ↦ inr (elim (prepare_config_error s.world e invalid) [
      | inl kind ↦
          inl (
            e,
            invalid,
            kind,
            ap (handle m) (validate_err m path s e invalid) ∙ ground (arith, kind),
          )
      | inr foreign ↦ inr (e, foreign, ap (handle m) (validate_err m path s e invalid))
    ])
  ]
